-- ===== src/Guards/Address.antt =====
-- Whom resolve_client_ip (app/core/client_ip.py) believes.
use rfp.Extraction.World.{is_empty, strip}
use rfp.Guards.{
  IpOps, PeerRequest, by_header, by_peer, comma, has_char, max_forwarded_ip_length,
  resolve_client_ip, unknown_peer, validate_single_forwarded_ip,
}
use rfp.Prelude.{
  List, Option, Text, arith, false, if_both, inl, inr, length, ltb, member, none, not, or_else,
  refl, some, true, ◌||◌, ◌≡◌, ◌≤◌, ◌⊎◌,
}

-- The header of a trusted proxy names this address, and nothing else.
pub record FromProxy (ops : IpOps) (request : PeerRequest) (trusted : List Text) (ip : Text)
    : Type 0 where
  pub peer : Text
  pub forwarded : Text
  pub is_peer : request.client_host ≡ some peer
  pub is_trusted : member peer trusted ≡ true
  pub is_header : request.forwarded_for ≡ some forwarded
  pub is_value : ip ≡ strip ops.chars forwarded
  pub is_address : ops.is_ip ip ≡ true
  pub short : length ip ≤ max_forwarded_ip_length
  pub single : has_char comma ip ≡ false

-- The peer itself, or "unknown" without one.
abbrev pub peer_of : PeerRequest → Text
peer_of request = or_else request.client_host unknown_peer

module _ (ops : IpOps) (request : PeerRequest) (trusted : List Text) where
  abbrev pub Believed : Text → Type 0
  Believed ip =
      (ip ≡ unknown_peer) ⊎ ((request.client_host ≡ some ip) ⊎ FromProxy ops request trusted ip)

  module _ (peer : Text) (is_peer : request.client_host ≡ some peer)
      (is_trusted : member peer trusted ≡ true) (forwarded : Text)
      (is_header : request.forwarded_for ≡ some forwarded) where
    validated : Believed (or_else (validate_single_forwarded_ip ops forwarded) peer)
    unfolding validate_single_forwarded_ip
    validated =
        let value = strip ops.chars forwarded in
        let B = λ (o : Option Text). Believed (or_else o peer) in
        if_both B (is_empty value || ltb max_forwarded_ip_length (length value)) _ _
          (λ _. inr (inl is_peer))
          (λ e.
            if_both B (has_char comma value) _ _ (λ _. inr (inl is_peer))
              (λ c.
                if_both B (ops.is_ip value) _ _
                  (λ v. inr (
                    inr (record {
                      peer = peer;
                      forwarded = forwarded;
                      is_peer = is_peer;
                      is_trusted = is_trusted;
                      is_header = is_header;
                      is_value = refl;
                      is_address = v;
                      short = ground (arith, e);
                      single = c;
                    })))
                  (λ _. inr (inl is_peer))))

  by_header-Believed :
      (peer : Text)
      → request.client_host ≡ some peer
      → member peer trusted ≡ true
      → (header : Option Text) → request.forwarded_for ≡ header
      → Believed (by_header ops peer header)
  unfolding by_header
  by_header-Believed peer is_peer is_trusted none h = inr (inl is_peer)
  by_header-Believed peer is_peer is_trusted (some forwarded) h =
      if_both Believed (is_empty forwarded) _ _ (λ _. inr (inl is_peer))
        (λ _. validated peer is_peer is_trusted forwarded h)

  by_peer-Believed :
      (o : Option Text)
      → request.client_host ≡ o
      → Believed (by_peer ops trusted o request.forwarded_for)
  unfolding by_peer
  by_peer-Believed none e = inl refl
  by_peer-Believed (some peer) e =
      if_both Believed (is_empty peer) _ _ (λ _. inl refl)
        (λ _.
          if_both Believed (not (member peer trusted)) _ _ (λ _. inr (inl e))
            (λ t. by_header-Believed peer e (ground (arith, t)) _ refl))

  -- The address of a request is "unknown", its direct peer, or, if that peer is a trusted proxy, the
  -- one address in its header: a valid one, of at most 45 characters and no list.
  pub resolve_client_ip-Believed : Believed (resolve_client_ip ops request trusted)
  unfolding resolve_client_ip
  resolve_client_ip-Believed = by_peer-Believed request.client_host refl
