-- ===== src/Guards/Examples.antt =====
-- Tests of app/core/client_ip.py, host_validation.py and csrf.py, and their theorems at concrete inputs.
use rfp.Evidence.{contains, starts_with}
use rfp.Extraction.World.{TextOps, lstrip, strip}
use rfp.Guards.{
  IpOps, parse_entries, parse_trusted_proxy_ips, refusal_of, resolve_client_ip, split_on,
  validate_single_forwarded_ip, value_error,
}
use rfp.Guards.Address.{Believed, resolve_client_ip-Believed}
use rfp.Guards.Csrf.{
  CsrfRequest, FormTypes, Judges, csrf_forbidden, csrf_passed, csrf_type_error, submitted,
  validate_csrf_token, validate_csrf_token-Judges,
}
use rfp.Guards.Host.{HostOps, before_colon, host_allowed, host_passes, hostname_of}
use rfp.Guards.Trusted.{IsExact, join, parse_trusted_proxy_ips-join, trusts}
use rfp.Prelude.{
  Bool, Option, Text, [], any_char, false, leb, member, none, refl, same_text, some, true, ◌&&◌,
  ◌++◌, ◌==◌, ◌∷◌, ◌≡◌,
}

abbrev guard_chars : TextOps
guard_chars = record {
  is_space = λ c. c == 0x20;
  nfc = λ chars. chars;
  sha256 = λ chars. "h";
  show_id = λ n. n ∷ [];
  show_number = λ n. n ∷ [];
  code_points = λ s. [];
}

-- One digit is an address.
abbrev is_digit : Text → Bool
is_digit (c ∷ []) = leb 0x30 c && leb c 0x39
is_digit _ = false

abbrev digit_ops : IpOps
digit_ops = record { chars = guard_chars; is_ip = is_digit }

abbrev one : Text
one = 0x31 ∷ []

abbrev two : Text
two = 0x32 ∷ []

-- The header of the trusted proxy counts, that of another peer and a list of two addresses do not.
believes :
    (resolve_client_ip digit_ops
        (record { client_host = some one; forwarded_for = some (0x20 ∷ two) })
        (one ∷ [])
      ≡ two)
    × (resolve_client_ip digit_ops
          (record { client_host = some two; forwarded_for = some one })
          (one ∷ [])
        ≡ two)
    × (resolve_client_ip digit_ops
          (record { client_host = some one; forwarded_for = some (0x32 ∷ 0x2c ∷ 0x33 ∷ []) })
          (one ∷ [])
        ≡ one)
unfolding resolve_client_ip member same_text validate_single_forwarded_ip strip any_char
believes = (refl, refl, refl)

-- A subnet is refused.
subnet_refused :
    parse_trusted_proxy_ips digit_ops (some (0x31 ∷ 0x2f ∷ 0x38 ∷ []))
    ≡ value_error "CIDR ranges are not allowed for TRUSTED_PROXY_IPS"
unfolding parse_trusted_proxy_ips strip parse_entries split_on refusal_of member same_text any_char
subnet_refused = refl

resolve_client_ip-Believed_example :
    Believed digit_ops
      (record { client_host = some one; forwarded_for = some two })
      (one ∷ [])
      (resolve_client_ip digit_ops
        (record { client_host = some one; forwarded_for = some two })
        (one ∷ []))
resolve_client_ip-Believed_example =
    resolve_client_ip-Believed digit_ops
      (record { client_host = some one; forwarded_for = some two }) (one ∷ [])

IsExact-one : IsExact digit_ops one
unfolding any_char member same_text
IsExact-one = record {
  non_empty = refl;
  no_space = refl;
  no_comma = refl;
  no_slash = refl;
  no_wildcard = refl;
  valid = refl;
}

IsExact-two : IsExact digit_ops two
unfolding any_char member same_text
IsExact-two = record {
  non_empty = refl;
  no_space = refl;
  no_comma = refl;
  no_slash = refl;
  no_wildcard = refl;
  valid = refl;
}

parse_trusted_proxy_ips-join_example :
    trusts (parse_trusted_proxy_ips digit_ops (some (join (one ∷ two ∷ [])))) two
    ≡ member two (one ∷ two ∷ [])
parse_trusted_proxy_ips-join_example =
    parse_trusted_proxy_ips-join digit_ops one (two ∷ []) (IsExact-one, (IsExact-two, tt)) two

abbrev host_ops : HostOps
host_ops = record { host_chars = guard_chars; lower = λ chars. chars }

-- A port in the Host header makes no difference.
port_ignored : host_passes host_ops (one ∷ []) [] (some (one ++ (0x3a ∷ two))) ≡ true
unfolding host_passes hostname_of before_colon strip lstrip member same_text host_allowed
port_ignored = refl

abbrev form_types : FormTypes
form_types = record { urlencoded = 0x75 ∷ []; multipart = 0x6d ∷ [] }

-- A mutating request with its token in the header, if there is one.
abbrev posted : Option Text → CsrfRequest
posted header = record {
  method = "POST";
  bypassed = false;
  session_token = some one;
  header_token = header;
  content_type = 0x75 ∷ [];
  form_token = some one;
}

-- The token passes in the header or in the form; another token in the header hides the form, and one
-- that is not ASCII raises.
guards :
    (validate_csrf_token form_types (posted (some one)) ≡ csrf_passed)
    × (validate_csrf_token form_types (posted none) ≡ csrf_passed)
    × (validate_csrf_token form_types (posted (some two)) ≡ csrf_forbidden)
    × (validate_csrf_token form_types (posted (some (0xe9 ∷ []))) ≡ csrf_type_error)
unfolding validate_csrf_token submitted any_char same_text contains starts_with
guards = (refl, refl, refl, refl)

validate_csrf_token-Judges_example :
    Judges form_types (posted (some two)) (validate_csrf_token form_types (posted (some two)))
validate_csrf_token-Judges_example = validate_csrf_token-Judges form_types (posted (some two))
