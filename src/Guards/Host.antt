-- ===== src/Guards/Host.antt =====
-- app/core/host_validation.py: which Host headers are let through. `lower` is str.lower.
use rfp.Evidence.Grounding.{is_nil}
use rfp.Extraction.World.{TextOps, is_empty, strip}
use rfp.Prelude.{
  Bool, List, Option, Text, [], ap, arith, if◌then◌else◌, map, member, not, or_else, refl, some,
  ◌++◌, ◌==◌, ◌||◌, ◌∷◌, ◌≡◌,
}
use rfp.Sessions.Middleware.{exempt_exact}

pub record HostOps : Type 0 where
  pub host_chars : TextOps
  pub lower : Text → Text

-- `host.split(":", 1)[0]`
unfoldable pub before_colon : Text → Text
before_colon [] = []
before_colon (c ∷ cs) = let rest = before_colon cs in if c == 0x3a then [] else c ∷ rest

unfoldable pub hostname_of : HostOps → Text → Text
hostname_of ops host_header = ops.lower (strip ops.host_chars (before_colon host_header))

unfoldable pub host_allowed : List Text → Text → Text → Bool
host_allowed allowed path hostname =
    is_nil allowed
    || member path exempt_exact
    || not (is_empty hostname || not (member hostname allowed))

-- Whether the request is passed on; otherwise the answer is a 400.
unfoldable pub host_passes : HostOps → List Text → Text → Option Text → Bool
unfolding host_allowed
host_passes ops allowed_hosts path header =
    host_allowed (map ops.lower allowed_hosts) path (hostname_of ops (or_else header []))

before_colon-port : (host port : Text) → before_colon (host ++ (0x3a ∷ port)) ≡ before_colon host
unfolding before_colon
before_colon-port [] port = refl
before_colon-port (c ∷ cs) port = ground (arith, before_colon-port cs port)

-- A port in the Host header makes no difference.
pub host_passes-port :
    (ops : HostOps) (allowed_hosts : List Text) (path host port : Text)
    → host_passes ops allowed_hosts path (some (host ++ (0x3a ∷ port)))
      ≡ host_passes ops allowed_hosts path (some host)
unfolding host_passes hostname_of
host_passes-port ops allowed_hosts path host port =
    ap
      (λ (h : Text).
        host_allowed (map ops.lower allowed_hosts) path (ops.lower (strip ops.host_chars h)))
      (before_colon-port host port)
