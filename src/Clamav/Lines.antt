-- ===== src/Clamav/Lines.antt =====
-- The reading of clamd's version line (app/services/clamav_client.py, _parse_version_line).
use mathlib.Core.List.{append-nil, append_assoc}
use rfp.Clamav.{ClamavEnv}
use rfp.Clamav.Version.{
  VersionOps, after_space, engine_version_of, parse_version_line, parse_version_timestamp,
  some_name, up_to_slash, version_parts, version_tail,
}
use rfp.Extraction.World.{is_empty, strip}
use rfp.Prelude.{
  Bool, Option, String, Text, [], any_char, ap, arith, false, if_both, inl, inr, none, refl, some,
  sym, true, ℕ, ◌++◌, ◌==◌, ◌||◌, ◌∙◌, ◌∷◌, ◌≡◌, ◌⊎◌,
}
use rfp.Scan.World.{VersionInfo}

neither_left : (a b : Bool) → (a || b) ≡ false → a ≡ false
neither_left a b h = ground (arith, h)

neither_right : (a b : Bool) → (a || b) ≡ false → b ≡ false
neither_right a b h = ground (arith, h)

abbrev pub slash_in : Text → Bool
slash_in = any_char (λ c. c == 0x2f)

abbrev pub break_in : Text → Bool
break_in = any_char (λ c. c == 0x0a)

up_to_slash-joined :
    (sig rest : Text) → slash_in sig ≡ false → up_to_slash (sig ++ (0x2f ∷ rest)) ≡ some (sig, rest)
unfolding up_to_slash any_char
up_to_slash-joined [] rest h = refl
up_to_slash-joined (c ∷ cs) rest h =
    rw (neither_left (c == 0x2f) (slash_in cs) h)
      (rw (up_to_slash-joined cs rest (neither_right (c == 0x2f) (slash_in cs) h)) refl)

version_tail-joined :
    (sig timestamp : Text)
    → is_empty sig ≡ false
    → slash_in sig ≡ false
    → is_empty timestamp ≡ false
    → break_in timestamp ≡ false
    → version_tail (sig ++ (0x2f ∷ timestamp)) ≡ some (sig, timestamp)
unfolding version_tail
version_tail-joined sig timestamp e s t b =
    rw (up_to_slash-joined sig timestamp s) (rw e (rw t (rw b refl)))

is_empty-longer : (first : Text) (c : ℕ) (cs : Text) → is_empty (first ++ (c ∷ cs)) ≡ false
is_empty-longer [] c cs = refl
is_empty-longer (x ∷ xs) c cs = refl

version_parts-joined :
    (first engine tail : Text) (parts : Text × Text)
    → is_empty (first ++ engine) ≡ false
    → slash_in engine ≡ false
    → break_in engine ≡ false
    → version_tail tail ≡ some parts
    → version_parts first (engine ++ (0x2f ∷ tail)) ≡ some (first ++ engine, parts)
unfolding version_parts any_char
version_parts-joined first [] tail parts e s b t =
    let f : is_empty first ≡ false = ap is_empty (sym (append-nil first)) ∙ e in
    rw f (rw t (ap (λ (l : Text). some (l, parts)) (sym (append-nil first))))
version_parts-joined first (c ∷ cs) tail parts e s b t =
    let flat : (first ++ (c ∷ [])) ++ cs ≡ first ++ (c ∷ cs) = append_assoc first (c ∷ []) cs in
    rw (neither_left (c == 0x2f) (slash_in cs) s) (
      rw (neither_left (c == 0x0a) (break_in cs) b) (
        version_parts-joined (first ++ (c ∷ [])) cs tail parts (ap is_empty flat ∙ e)
          (neither_right (c == 0x2f) (slash_in cs) s) (neither_right (c == 0x0a) (break_in cs) b) t
        ∙ ap (λ (l : Text). some (l, parts)) flat))

-- What clamd prints: an engine, a slash, the version of the signatures, a slash and the time.
abbrev pub version_line : Text → Text → Text → Text
version_line engine sig timestamp = engine ++ (0x2f ∷ (sig ++ (0x2f ∷ timestamp)))

abbrev pub space_in : Text → Bool
space_in = any_char (λ c. c == 0x20)

-- The name of a text, if it is not empty.
abbrev pub IsNamed : ClamavEnv → Text → Option String → Type 0
IsNamed env piece named =
    ((is_empty piece ≡ true) × (named ≡ none))
    ⊎ ((is_empty piece ≡ false) × (named ≡ some (env.name_of piece)))

-- The name of everything behind the first space, without the spaces around it; or of the whole, if there is
-- no space in it.
abbrev pub IsEngineVersion : ClamavEnv → Text → Option String → Type 0
IsEngineVersion env engine named =
    ((first : Text) × (behind : Text) × (engine ≡ first ++ (0x20 ∷ behind))
      × (space_in first ≡ false)
      × (named ≡ some (env.name_of (strip env.chars behind))))
    ⊎ ((space_in engine ≡ false) × IsNamed env engine named)

-- What follows the first space, if there is one.
abbrev AfterSpace : Text → Option Text → Type 0
AfterSpace engine none = space_in engine ≡ false
AfterSpace engine (some behind) =
    (first : Text) × (engine ≡ first ++ (0x20 ∷ behind)) × (space_in first ≡ false)

longer_first :
    (c : ℕ) (cs : Text) (o : Option Text)
    → (c == 0x20) ≡ false
    → AfterSpace cs o
    → AfterSpace (c ∷ cs) o
unfolding any_char
longer_first c cs none n e = rw (n, e) refl
longer_first c cs (some behind) n (first, split, e) =
    (c ∷ first, ap (λ (t : Text). c ∷ t) split, rw (n, e) refl)

after_space-AfterSpace : (engine : Text) → AfterSpace engine (after_space engine)
unfolding after_space any_char
after_space-AfterSpace [] = refl
after_space-AfterSpace (c ∷ cs) =
    if_both (AfterSpace (c ∷ cs)) (c == 0x20) _ _
      (λ e. ([], ap (λ (x : ℕ). x ∷ cs) (ground (arith, e)), refl))
      (λ n. longer_first c cs (after_space cs) n (after_space-AfterSpace cs))

some_name-IsNamed : (env : ClamavEnv) (piece : Text) → IsNamed env piece (some_name env piece)
unfolding some_name
some_name-IsNamed env piece =
    if_both (IsNamed env piece) (is_empty piece) _ _ (λ e. inl (e, refl)) (λ e. inr (e, refl))

engine_version_of-IsEngineVersion :
    (env : ClamavEnv) (engine : Text) → IsEngineVersion env engine (engine_version_of env engine)
unfolding engine_version_of
engine_version_of-IsEngineVersion env engine =
    by_space (after_space engine) (after_space-AfterSpace engine)
  where
    by_space :
        (o : Option Text)
        → AfterSpace engine o
        → IsEngineVersion env engine (elim o [
          | none ↦ some_name env engine
          | some second ↦ some (env.name_of (strip env.chars second))
        ])
    by_space none e = inr (e, some_name-IsNamed env engine)
    by_space (some behind) (first, split, e) = inl (first, behind, split, e, refl)

-- A version line is read back in its parts: if the engine is not empty and has neither a slash nor a line
-- break, the version of the signatures is not empty and has no slash, and the time is not empty and has no
-- line break, then the line is accepted; the version of the engine is all that follows the first space in
-- the trimmed engine, or the whole if it has no space; the version of the signatures is the trimmed text
-- between the slashes, none if it is blank; and the time is what parse_version_timestamp makes of the
-- trimmed text after them.
pub parse_version_line-version_line :
    (ops : VersionOps) (engine sig timestamp : Text)
    → is_empty engine ≡ false
    → slash_in engine ≡ false
    → break_in engine ≡ false
    → is_empty sig ≡ false
    → slash_in sig ≡ false
    → is_empty timestamp ≡ false
    → break_in timestamp ≡ false
    → (info : VersionInfo) × (parse_version_line ops (version_line engine sig timestamp)
        ≡ some info)
      × IsEngineVersion ops.env (strip ops.env.chars engine) info.engine_version
      × IsNamed ops.env (strip ops.env.chars sig) info.signature_version
      × (info.signature_timestamp ≡ parse_version_timestamp ops (strip ops.env.chars timestamp))
unfolding parse_version_line
parse_version_line-version_line ops engine sig timestamp e es eb s ss t tb = (
  record {
    engine_version = engine_version_of ops.env (strip ops.env.chars engine);
    signature_version = some_name ops.env (strip ops.env.chars sig);
    signature_timestamp = parse_version_timestamp ops (strip ops.env.chars timestamp);
  },
  rw
      (version_parts-joined [] engine (sig ++ (0x2f ∷ timestamp)) (sig, timestamp) e es eb
        (version_tail-joined sig timestamp s ss t tb))
      refl,
  engine_version_of-IsEngineVersion ops.env (strip ops.env.chars engine),
  some_name-IsNamed ops.env (strip ops.env.chars sig),
  refl,
)
