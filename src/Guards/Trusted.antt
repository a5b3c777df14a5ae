-- ===== src/Guards/Trusted.antt =====
-- A list of trusted proxies is read back (app/core/client_ip.py).
use mathlib.Core.List.{reverse, reverse-reverse}
use rfp.Extraction.Plain.{any_char-append, any_char-reverse}
use rfp.Extraction.World.{TextOps, is_empty, lstrip, strip}
use rfp.Guards.{
  IpOps, ParsedIps, add_entry, comma, has_char, parse_entries, parse_trusted_proxy_ips, refusal_of,
  split_on, trusted_ips, value_error, wildcards,
}
use rfp.Prelude.{
  All, Bool, Bool-cases, List, Text, [], any_char, ap, arith, false, inl, inr, member, none, not,
  refl, same_number, same_text, some, true, ℕ, ◌++◌, ◌||◌, ◌∙◌, ◌∷◌, ◌≡◌,
}

-- An exact address, as an operator writes it.
pub record IsExact (ops : IpOps) (ip : Text) : Type 0 where
  pub non_empty : is_empty ip ≡ false
  pub no_space : any_char ops.chars.is_space ip ≡ false
  pub no_comma : has_char comma ip ≡ false
  pub no_slash : has_char 0x2f ip ≡ false
  pub no_wildcard : member ip wildcards ≡ false
  pub valid : ops.is_ip ip ≡ true

-- The addresses with commas between them.
unfoldable pub join : List Text → Text
join [] = []
join (ip ∷ []) = ip
join (ip ∷ next_ip ∷ ips) = ip ++ (comma ∷ join (next_ip ∷ ips))

split-one : (sep : ℕ) (word : Text) → has_char sep word ≡ false → split_on sep word ≡ word ∷ []
unfolding split_on any_char
split-one sep [] e = refl
split-one sep (c ∷ cs) e = ground (arith, e, split-one sep cs)

split-append :
    (sep : ℕ) (word rest : Text)
    → has_char sep word ≡ false
    → split_on sep (word ++ (sep ∷ rest)) ≡ word ∷ split_on sep rest
unfolding split_on any_char
split-append sep [] rest e = ground (arith, same_number {a = sep} refl)
split-append sep (c ∷ cs) rest e = ground (arith, e, split-append sep cs rest)

split-join :
    (ops : IpOps) (ip : Text) (ips : List Text)
    → All (IsExact ops) (ip ∷ ips)
    → split_on comma (join (ip ∷ ips)) ≡ ip ∷ ips
unfolding join
split-join ops ip [] (h, rest) = split-one comma ip h.no_comma
split-join ops ip (next_ip ∷ ips) (h, rest) =
    split-append comma ip (join (next_ip ∷ ips)) h.no_comma
    ∙ ap (λ (words : List Text). ip ∷ words) (split-join ops next_ip ips rest)

lstrip_id : (ops : TextOps) (xs : Text) → any_char ops.is_space xs ≡ false → lstrip ops xs ≡ xs
unfolding lstrip any_char
lstrip_id ops [] e = refl
lstrip_id ops (x ∷ xs) e = ground (arith, e)

strip_id : (ops : TextOps) (xs : Text) → any_char ops.is_space xs ≡ false → strip ops xs ≡ xs
unfolding strip
strip_id ops xs e =
    ap (λ (t : Text). reverse (lstrip ops (reverse t))) (lstrip_id ops xs e)
    ∙ ap (λ (t : Text). reverse t)
        (lstrip_id ops (reverse xs) (any_char-reverse ops.is_space xs ∙ e))
    ∙ reverse-reverse xs

-- A text with a character that is no space.
abbrev has_ink : TextOps → Text → Bool
has_ink ops xs = any_char (λ c. not (ops.is_space c)) xs

ink-lstrip :
    (ops : TextOps) (xs : Text) → has_ink ops xs ≡ true → has_ink ops (lstrip ops xs) ≡ true
unfolding lstrip any_char
ink-lstrip ops [] e = e
ink-lstrip ops (x ∷ xs) e = elim (Bool-cases (ops.is_space x)) [
  | inl space ↦ ground (arith, space, e, ink-lstrip ops xs)
  | inr other ↦ ground (arith, other)
]

ink-not_empty : (ops : TextOps) (xs : Text) → has_ink ops xs ≡ true → is_empty xs ≡ false
unfolding any_char
ink-not_empty ops [] e = absurd (ground (arith, e))
ink-not_empty ops (x ∷ xs) e = refl

ink-strip : (ops : TextOps) (xs : Text) → has_ink ops xs ≡ true → is_empty (strip ops xs) ≡ false
unfolding strip
ink-strip ops xs e =
    let p = λ (c : ℕ). not (ops.is_space c) in
    let left = lstrip ops xs in
    let middle = any_char-reverse p left ∙ ink-lstrip ops xs e in
    let right = lstrip ops (reverse left) in
    ink-not_empty ops (reverse right)
      (any_char-reverse p right ∙ ink-lstrip ops (reverse left) middle)

-- The set that the loop makes of exact entries.
reverse_onto : List Text → List Text → List Text
reverse_onto [] result = result
reverse_onto (ip ∷ ips) result = reverse_onto ips (ip ∷ result)

or_swap : (a b c : Bool) → (a || (b || c)) ≡ ((b || a) || c)
or_swap a true c = ground arith
or_swap a false c = ground arith

member-reverse_onto :
    (k : Text) (ips result : List Text)
    → member k (reverse_onto ips result) ≡ (member k ips || member k result)
unfolding reverse_onto member
member-reverse_onto k [] result = refl
member-reverse_onto k (ip ∷ ips) result =
    member-reverse_onto k ips (ip ∷ result)
    ∙ or_swap (member k ips) (same_text k ip) (member k result)

module _ (ops : IpOps) where
  ink_exact :
      (ip : Text)
      → is_empty ip ≡ false
      → any_char ops.chars.is_space ip ≡ false
      → has_ink ops.chars ip ≡ true
  unfolding any_char
  ink_exact [] e s = absurd (ground (arith, e))
  ink_exact (c ∷ cs) e s = ground (arith, s)

  exact-refusal : (ip : Text) → IsExact ops ip → refusal_of ops ip ≡ none
  unfolding refusal_of
  exact-refusal ip h = ground (arith, h.non_empty, h.no_wildcard, h.no_slash, h.valid)

  parse_one :
      (ip : Text) (result ips : List Text)
      → IsExact ops ip
      → parse_entries ops result (ip ∷ ips) ≡ parse_entries ops (ip ∷ result) ips
  unfolding parse_entries add_entry
  parse_one ip result ips h =
      rw (strip_id ops.chars ip h.no_space) (rw (exact-refusal ip h) (rw h.non_empty refl))

  parse_entries-exact :
      (ips result : List Text)
      → All (IsExact ops) ips
      → parse_entries ops result ips ≡ trusted_ips (reverse_onto ips result)
  unfolding parse_entries reverse_onto
  parse_entries-exact [] result h = refl
  parse_entries-exact (ip ∷ ips) result (h, rest) =
      parse_one ip result ips h ∙ parse_entries-exact ips (ip ∷ result) rest

  ink-join :
      (ip : Text) (ips : List Text) → IsExact ops ip → has_ink ops.chars (join (ip ∷ ips)) ≡ true
  unfolding join
  ink-join ip [] h = ink_exact ip h.non_empty h.no_space
  ink-join ip (next_ip ∷ ips) h =
      any_char-append _ ip (comma ∷ join (next_ip ∷ ips))
      ∙ ground (arith, ink_exact ip h.non_empty h.no_space)

-- The set that a result holds, if it is no error.
abbrev pub trusts : ParsedIps → Text → Bool
trusts (trusted_ips ips) ip = member ip ips
trusts (value_error why) ip = false

or_false : (b : Bool) → (b || false) ≡ b
or_false true = refl
or_false false = refl

-- Reading back exact addresses that were written with commas between them gives the same set.
pub parse_trusted_proxy_ips-join :
    (ops : IpOps) (first_ip : Text) (ips : List Text)
    → All (IsExact ops) (first_ip ∷ ips)
    → (ip : Text)
    → trusts (parse_trusted_proxy_ips ops (some (join (first_ip ∷ ips)))) ip
      ≡ member ip (first_ip ∷ ips)
unfolding parse_trusted_proxy_ips member
parse_trusted_proxy_ips-join ops first_ip ips (h, rest) ip =
    let ink = ink-join ops first_ip ips h in
    let raw = join (first_ip ∷ ips) in
    rw (ink-not_empty ops.chars raw ink) (
      rw (ink-strip ops.chars raw ink) (
        ap (λ (words : List Text). trusts (parse_entries ops [] words) ip)
          (split-join ops first_ip ips (h, rest))
        ∙ ap (λ (r : ParsedIps). trusts r ip)
            (parse_entries-exact ops (first_ip ∷ ips) [] (h, rest))
        ∙ member-reverse_onto ip (first_ip ∷ ips) []
        ∙ or_false (member ip (first_ip ∷ ips))))
