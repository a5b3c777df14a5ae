-- ===== src/Prelude.antt =====
-- Names, tests and list operations that the models of all components share.
pub mod Dict
use Prim.Native.Nat.{Ordering, compare}
pub use Prim.Native.Nat.{ℕ, zero, suc, ◌+◌, ◌-◌, ◌*◌, ◌^◌, ◌≤◌, ◌<◌, min, max}
pub use Prim.Native.String.{String}
pub use mathlib.Core.Path.{◌≡◌, refl, sym, ap, ◌∙◌}
pub use mathlib.Core.Logic.{◌≢◌, ◌↔◌, ◌⊎◌, inl, inr, ite, dite, if_pos, if_neg}
pub use mathlib.Core.Bool.{Bool, true, false, ◌&&◌, ◌||◌, not}
pub use mathlib.Core.Option.{Option, none, some}
pub use mathlib.Core.List.{List, [], ◌∷◌, ◌++◌, map}
pub use native.Mathlib.Omega.{arith}
pub use text.Mathlib.Text.{◌==◌ as str_eq}
pub use text.Mathlib.TextEquality.{eq_iff}
pub use text.Mathlib.TextPositions.{eq_refl}

abbrev pub ltb : ℕ → ℕ → Bool
ltb a b = elim (compare a b) [ Ordering.lt ↦ true | _ ↦ false ]

abbrev pub leb : ℕ → ℕ → Bool
leb a b = elim (compare a b) [ Ordering.gt ↦ false | _ ↦ true ]

infix 50 ◌==◌
abbrev pub ◌==◌ : ℕ → ℕ → Bool
a == b = elim (compare a b) [ Ordering.eq ↦ true | _ ↦ false ]

pub same_number : {a b : ℕ} → a ≡ b → (a == b) ≡ true
same_number {a} {b} e = ground (arith, e)

infix 1 if◌then◌else◌
abbrev pub if◌then◌else◌ {ℓ} : {A : Type ℓ} → Bool → A → A → A
if true then x else y = x
if false then x else y = y

pub Bool-cases : (b : Bool) → (b ≡ true) ⊎ (b ≡ false)
Bool-cases true = inl refl
Bool-cases false = inr refl

pub Option-cases {ℓ} : {A : Type ℓ} (o : Option A) → (o ≡ none) ⊎ ((a : A) × (o ≡ some a))
Option-cases none = inl refl
Option-cases (some a) = inr (a, refl)

module _ {ℓ} {A : Type ℓ} where
  abbrev pub length : List A → ℕ
  length [] = 0
  length (x ∷ xs) = suc (length xs)

  pub length-append : (xs ys : List A) → length (xs ++ ys) ≡ length xs + length ys
  length-append [] ys = omega arith
  length-append (x ∷ xs) ys = omega (arith, length-append xs ys)

-- Text that is walked or sliced, as its code points.
abbrev pub Text : Type 0
Text = List ℕ

-- `x or y` where `x` may be `None`.
abbrev pub or_else {ℓ} : {A : Type ℓ} → Option A → A → A
or_else none d = d
or_else (some a) d = a

abbrev pub is_some {ℓ} : {A : Type ℓ} → Option A → Bool
is_some none = false
is_some (some a) = true

-- A predicate that holds of every entry.
module _ {ℓ κ} {A : Type ℓ} (Holds : A → Type κ) where
  abbrev pub All : List A → Type κ
  All [] = Unit
  All (first ∷ rest) = Holds first × All rest

-- A predicate that holds of some entry.
module _ {ℓ} {A : Type ℓ} (Holds : A → Type 0) where
  abbrev pub Any : List A → Type 0
  Any [] = ⊥
  Any (first ∷ rest) = Holds first ⊎ Any rest

-- A property of both branches of a test is one of the test.
module _ {ℓ κ} {A : Type ℓ} (P : A → Type κ) where
  pub if_both : (b : Bool) (x y : A) → (b ≡ true → P x) → (b ≡ false → P y) → P (if b then x else y)
  if_both true x y f g = f refl
  if_both false x y f g = g refl

  pub ite_both {μ} : {Q : Type μ} (d : Dec Q) (x y : A) → (Q → P x) → (¬ Q → P y) → P (ite d x y)
  ite_both (yes q) x y f g = f q
  ite_both (no n) x y f g = g n

module _ {ℓ} {A : Type ℓ} where
  abbrev pub take : ℕ → List A → List A
  take zero xs = []
  take (suc n) [] = []
  take (suc n) (x ∷ xs) = x ∷ take n xs

  abbrev pub drop : ℕ → List A → List A
  drop zero xs = xs
  drop (suc n) [] = []
  drop (suc n) (x ∷ xs) = drop n xs

-- `text[start:end]`
unfoldable pub slice : Text → ℕ → ℕ → Text
slice text start end = take (end - start) (drop start text)

-- Equality of two texts.
unfoldable pub same_text : Text → Text → Bool
same_text [] [] = true
same_text [] (y ∷ ys) = false
same_text (x ∷ xs) [] = false
same_text (x ∷ xs) (y ∷ ys) = (x == y) && same_text xs ys

pub same_text_iff : (xs ys : Text) → (same_text xs ys ≡ true) ↔ (xs ≡ ys)
unfolding same_text
same_text_iff [] [] = ground arith
same_text_iff [] (y ∷ ys) = ground arith
same_text_iff (x ∷ xs) [] = ground arith
same_text_iff (x ∷ xs) (y ∷ ys) = ground (arith, same_text_iff xs ys)

-- A character test, on some character of a text.
unfoldable pub any_char : (ℕ → Bool) → Text → Bool
any_char p [] = false
any_char p (c ∷ cs) = p c || any_char p cs

-- Whether a text is an element of a set, as its list of elements.
unfoldable pub member : Text → List Text → Bool
member token [] = false
member token (t ∷ ts) = same_text token t || member token ts
