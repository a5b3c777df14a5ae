-- ===== src/Extraction/Plain.antt =====
-- What find_unsafe_content of app/services/extraction_contract.py and str.strip let through.
-- A tab, a line feed, a carriage return, or a character outside the two ranges of control characters.
use mathlib.Core.List.{reverse, reverse-cons}
use rfp.Extraction.World.{TextOps, find_unsafe_content, is_disallowed, is_empty, lstrip, strip}
use rfp.Prelude.{
  All, Bool, Option, String, Text, [], any_char, ap, arith, false, if_both, is_some, none, not,
  refl, some, sym, true, ℕ, ◌++◌, ◌<◌, ◌||◌, ◌∙◌, ◌∷◌, ◌≡◌, ◌≤◌, ◌⊎◌,
}

abbrev pub IsPlainChar : ℕ → Type 0
IsPlainChar c = (c ≡ 9) ⊎ ((c ≡ 10) ⊎ ((c ≡ 13) ⊎ (((32 ≤ c) × (c < 127)) ⊎ (160 ≤ c))))

abbrev pub IsPlainText : Text → Type 0
IsPlainText = All IsPlainChar

-- Some character is not a space.
abbrev pub has_word : TextOps → Text → Bool
has_word ops cs = any_char (λ c. not (ops.is_space c)) cs

plain_char : (c : ℕ) → is_disallowed c ≡ false → IsPlainChar c
unfolding is_disallowed
plain_char c e = ground (arith, e)

allowed_char : (c : ℕ) → is_disallowed c ≡ true → ¬ IsPlainChar c
unfolding is_disallowed
allowed_char c e h = ground (arith, e, h)

any_char-IsPlainText : (cs : Text) → any_char is_disallowed cs ≡ false → IsPlainText cs
unfolding any_char
any_char-IsPlainText [] e = tt
any_char-IsPlainText (c ∷ cs) e =
    (plain_char c (ground (arith, e)), any_char-IsPlainText cs (ground (arith, e)))

any_char-not_plain : (cs : Text) → any_char is_disallowed cs ≡ true → ¬ IsPlainText cs
unfolding any_char
any_char-not_plain [] e h = ground (arith, e)
any_char-not_plain (c ∷ cs) e h = ground (arith, e, allowed_char c, h.0, any_char-not_plain cs, h.1)

pub find_unsafe_content-IsPlainText : (cs : Text) → find_unsafe_content cs ≡ none → IsPlainText cs
unfolding find_unsafe_content
find_unsafe_content-IsPlainText cs =
    if_both (λ o. o ≡ none → IsPlainText cs) (any_char is_disallowed cs) _ _
      (λ _. λ h. absurd (ground (arith, h))) (λ e. λ _. any_char-IsPlainText cs e)

pub find_unsafe_content-not_plain :
    (cs : Text) → is_some (find_unsafe_content cs) ≡ true → ¬ IsPlainText cs
unfolding find_unsafe_content
find_unsafe_content-not_plain cs =
    if_both (λ (o : Option String). is_some o ≡ true → ¬ IsPlainText cs) (any_char is_disallowed cs)
      (some "CONTENT_REJECT_CONTROL_CHARS") none (λ e. λ _. any_char-not_plain cs e)
      (λ _. λ h. absurd (ground (arith, h)))

pub any_char-append :
    (p : ℕ → Bool) (xs ys : Text) → any_char p (xs ++ ys) ≡ any_char p xs || any_char p ys
unfolding any_char
any_char-append p [] ys = refl
any_char-append p (x ∷ xs) ys = ground (arith, any_char-append p xs ys)

pub any_char-reverse : (p : ℕ → Bool) (xs : Text) → any_char p (reverse xs) ≡ any_char p xs
unfolding any_char
any_char-reverse p [] = refl
any_char-reverse p (x ∷ xs) =
    ap (λ (t : Text). any_char p t) (reverse-cons x xs)
    ∙ any_char-append p (reverse xs) (x ∷ [])
    ∙ ground (arith, any_char-reverse p xs)

lstrip-has_word :
    (ops : TextOps) (cs : Text)
    → is_empty (lstrip ops cs) ≡ false
    → has_word ops (lstrip ops cs) ≡ true
unfolding lstrip any_char
lstrip-has_word ops [] = λ e. ground (arith, e)
lstrip-has_word ops (c ∷ cs) =
    if_both (λ t. is_empty t ≡ false → has_word ops t ≡ true) (ops.is_space c) _ _
      (λ _. lstrip-has_word ops cs) (λ n. λ _. rw n refl)

lstrip_keeps_word :
    (ops : TextOps) (cs : Text) → has_word ops (lstrip ops cs) ≡ true → has_word ops cs ≡ true
unfolding lstrip any_char
lstrip_keeps_word ops [] = λ e. e
lstrip_keeps_word ops (c ∷ cs) =
    if_both (λ t. has_word ops t ≡ true → has_word ops (c ∷ cs) ≡ true) (ops.is_space c) _ _
      (λ e. λ h. rw (e, lstrip_keeps_word ops cs h) refl) (λ _. λ h. h)

reverse_present : (cs : Text) → is_empty (reverse cs) ≡ false → is_empty cs ≡ false
reverse_present [] e = e
reverse_present (c ∷ cs) e = refl

pub strip-has_word :
    (ops : TextOps) (cs : Text)
    → is_empty (strip ops cs) ≡ false
    → has_word ops (strip ops cs) ≡ true
unfolding strip
strip-has_word ops cs e =
    any_char-reverse (λ c. not (ops.is_space c)) (lstrip ops (reverse (lstrip ops cs)))
    ∙ lstrip-has_word ops (reverse (lstrip ops cs)) (reverse_present _ e)

pub strip_present-has_word :
    (ops : TextOps) (cs : Text) → is_empty (strip ops cs) ≡ false → has_word ops cs ≡ true
unfolding strip
strip_present-has_word ops cs e = lstrip_keeps_word ops cs (
    sym (any_char-reverse (λ c. not (ops.is_space c)) (lstrip ops cs))
    ∙ lstrip_keeps_word ops (reverse (lstrip ops cs))
        (lstrip-has_word ops (reverse (lstrip ops cs)) (reverse_present _ e)))
