-- ===== src/Prelude/Dict.antt =====
-- Python dictionaries with text keys, as association lists.
use Prim.Native.String.{String}
use mathlib.Core.Path.{◌≡◌, refl}
use mathlib.Core.Bool.{cond}
use mathlib.Core.Option.{Option, none, some}
use mathlib.Core.List.{List, [], ◌∷◌}
use native.Mathlib.Omega.{arith}
use text.Mathlib.Text.{◌==◌}
use text.Mathlib.TextEquality.{eq_iff}

-- The pairs of a dictionary, in insertion order.
abbrev pub Dict {ℓ} : Type ℓ → Type ℓ
Dict Value = List (String × Value)

module _ {ℓ} {Value : Type ℓ} where
  -- `d.get(key)`
  unfoldable pub lookup : String → Dict Value → Option Value
  lookup key [] = none
  lookup key (entry ∷ rest) = cond (entry.0 == key) (some entry.1) (lookup key rest)

  -- `d[key] = value`: an old entry keeps its place.
  unfoldable pub insert : String → Value → Dict Value → Dict Value
  insert key value [] = (key, value) ∷ []
  insert key value (entry ∷ rest) =
      cond (entry.0 == key) ((key, value) ∷ rest) (entry ∷ insert key value rest)

  -- `d.update(later)`
  unfoldable pub update_dict : Dict Value → Dict Value → Dict Value
  update_dict d [] = d
  update_dict d (entry ∷ later) = update_dict (insert entry.0 entry.1 d) later

  pub lookup-insert :
      (key wanted : String) (value : Value) (d : Dict Value)
      → lookup wanted (insert key value d) ≡ cond (key == wanted) (some value) (lookup wanted d)
  unfolding lookup insert
  lookup-insert key wanted value [] = refl
  lookup-insert key wanted value (entry ∷ rest) =
      let shorter = lookup-insert key wanted value rest in
      ground (arith, shorter, eq_iff entry.0 key, eq_iff entry.0 wanted, eq_iff key wanted)
