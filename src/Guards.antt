-- ===== src/Guards.antt =====
-- app/core/client_ip.py: the address that a request is taken to come from. The sibling files of app/core
-- are in the child modules.
pub mod Address
pub mod Trusted
pub mod Host
pub mod Csrf
mod Examples
use rfp.Extraction.World.{TextOps, is_empty, strip}
use rfp.Prelude.{
  Bool, List, Option, String, Text, [], any_char, if◌then◌else◌, length, ltb, member, none, not,
  or_else, some, ℕ, ◌==◌, ◌||◌, ◌∷◌,
}

-- `str.strip` and `ipaddress.ip_address`, which says whether a text is an address.
pub record IpOps : Type 0 where
  pub chars : TextOps
  pub is_ip : Text → Bool

abbrev pub comma : ℕ
comma = 0x2c

-- `sep in text`
abbrev pub has_char : ℕ → Text → Bool
has_char sep cs = any_char (λ c. c == sep) cs

abbrev pub push_char : ℕ → List Text → List Text
push_char c [] = (c ∷ []) ∷ []
push_char c (word ∷ words) = (c ∷ word) ∷ words

-- `text.split(sep)` for a separator of one character.
unfoldable pub split_on : ℕ → Text → List Text
split_on sep [] = [] ∷ []
split_on sep (c ∷ cs) =
    let words = split_on sep cs in if c == sep then [] ∷ words else push_char c words

-- A set of addresses, or the ValueError.
pub data ParsedIps : Type 0 where
  trusted_ips : List Text → ParsedIps
  value_error : String → ParsedIps

-- "*", "0.0.0.0/0", "::/0", "0.0.0.0" and "::"
abbrev pub wildcards : List Text
wildcards =
    (0x2a ∷ [])
    ∷ (0x30 ∷ 0x2e ∷ 0x30 ∷ 0x2e ∷ 0x30 ∷ 0x2e ∷ 0x30 ∷ 0x2f ∷ 0x30 ∷ [])
    ∷ (0x3a ∷ 0x3a ∷ 0x2f ∷ 0x30 ∷ [])
    ∷ (0x30 ∷ 0x2e ∷ 0x30 ∷ 0x2e ∷ 0x30 ∷ 0x2e ∷ 0x30 ∷ [])
    ∷ (0x3a ∷ 0x3a ∷ [])
    ∷ []

-- Why an entry is refused.
unfoldable pub refusal_of : IpOps → Text → Option String
refusal_of ops entry =
    if is_empty entry
    then none
    else if member entry wildcards
    then some "wildcard trusted-proxy value is not allowed"
    else if has_char 0x2f entry
    then some "CIDR ranges are not allowed for TRUSTED_PROXY_IPS"
    else if not (ops.is_ip entry)
    then some "invalid trusted-proxy IP"
    else none

unfoldable pub add_entry : Text → List Text → List Text
add_entry entry result = if is_empty entry then result else entry ∷ result

abbrev pub unless_refused : Option String → ParsedIps → ParsedIps
unless_refused none rest = rest
unless_refused (some why) rest = value_error why

-- The loop over the entries, with the set so far.
unfoldable pub parse_entries : IpOps → List Text → List Text → ParsedIps
parse_entries ops result [] = trusted_ips result
parse_entries ops result (raw_entry ∷ entries) =
    let entry = strip ops.chars raw_entry in
    unless_refused (refusal_of ops entry) (parse_entries ops (add_entry entry result) entries)

unfoldable pub parse_trusted_proxy_ips : IpOps → Option Text → ParsedIps
parse_trusted_proxy_ips ops none = trusted_ips []
parse_trusted_proxy_ips ops (some raw) =
    if is_empty raw || is_empty (strip ops.chars raw)
    then trusted_ips []
    else parse_entries ops [] (split_on comma raw)

abbrev pub max_forwarded_ip_length : ℕ
max_forwarded_ip_length = 45

unfoldable pub validate_single_forwarded_ip : IpOps → Text → Option Text
validate_single_forwarded_ip ops raw =
    let value = strip ops.chars raw in
    if is_empty value || ltb max_forwarded_ip_length (length value)
    then none
    else if has_char comma value
    then none
    else if ops.is_ip value
    then some value
    else none

-- "unknown"
abbrev pub unknown_peer : Text
unknown_peer = 0x75 ∷ 0x6e ∷ 0x6b ∷ 0x6e ∷ 0x6f ∷ 0x77 ∷ 0x6e ∷ []

-- The peer of a request, if it has one, and its X-Forwarded-For header.
pub record PeerRequest : Type 0 where
  pub client_host : Option Text
  pub forwarded_for : Option Text

by_header : IpOps → Text → Option Text → Text
by_header ops peer none = peer
by_header ops peer (some forwarded) =
    if is_empty forwarded then peer else or_else (validate_single_forwarded_ip ops forwarded) peer

by_peer : IpOps → List Text → Option Text → Option Text → Text
unfolding by_header
by_peer ops trusted none header = unknown_peer
by_peer ops trusted (some peer) header =
    if is_empty peer
    then unknown_peer
    else if not (member peer trusted)
    then peer
    else by_header ops peer header

unfoldable pub resolve_client_ip : IpOps → PeerRequest → List Text → Text
unfolding by_peer
resolve_client_ip ops request trusted =
    by_peer ops trusted request.client_host request.forwarded_for
