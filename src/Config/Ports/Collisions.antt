-- ===== src/Config/Ports/Collisions.antt =====
-- What an accepted configuration guarantees about ports (internal/config/validate.go:
-- `ValidatePortCollisions`).
use llama_proxy.Prelude.{
  ◌≡◌, ◌≢◌, refl, subst, true, false, ◌⊎◌, inl, inr, Option, none, some, List, [], ◌∷◌, arith, Text,
  Map, In, lookup, lookup→In, is_empty, Bool-cases,
}
use llama_proxy.Config.{ProcessConfig, BackendConfig, SchedulingConfig, YamlConfig, is_coding}
use llama_proxy.Config.Ports.{
  PortError, Origins, no_origins, origin_of, claim_ports, check_backends, validate_port_collisions,
}
use llama_proxy.Config.Ports.Claims.{SwapsWith, claim_ports-SwapsWith, claim_ports-enters}

module _ (parse_url : Text → Option (Text × Text)) where
  check_backends-free :
      (s : Origins) (bs : List BackendConfig) (b : BackendConfig)
      → check_backends parse_url s bs ≡ none
      → In b bs
      → is_empty (origin_of parse_url b.url) ≡ false
      → (lookup (origin_of parse_url b.url) s.bg_seen ≡ none)
        × (lookup (origin_of parse_url b.url) s.code_origins ≡ none)
  unfolding check_backends
  check_backends-free s [] b ok here full = absurd here
  check_backends-free s (d ∷ ds) b ok (inl same) full = subst Free same (at_head (rw same full))
    where
      Free : BackendConfig → Type 0
      Free x =
          (lookup (origin_of parse_url x.url) s.bg_seen ≡ none)
          × (lookup (origin_of parse_url x.url) s.code_origins ≡ none)

      at_head : is_empty (origin_of parse_url d.url) ≡ false → Free d
      at_head f = ground arith
  check_backends-free s (d ∷ ds) b ok (inr later) full = ground (arith, check_backends-free s ds b)

  pub record IsCollisionFree (c : YamlConfig) (sc : SchedulingConfig) : Type 0 where
    pub backgrounds_swap :
        (i j : Text) (a b : ProcessConfig)
        → lookup i sc.models ≡ some a
        → lookup j sc.models ≡ some b
        → i ≢ j
        → is_coding a ≡ false
        → is_coding b ≡ false
        → origin_of parse_url a.readiness_url ≡ origin_of parse_url b.readiness_url
        → is_empty (origin_of parse_url b.readiness_url) ≡ false
        → SwapsWith parse_url a b
    pub backends_apart :
        (i : Text) (a : ProcessConfig) (b : BackendConfig)
        → lookup i sc.models ≡ some a
        → In b c.backends
        → origin_of parse_url a.readiness_url ≡ origin_of parse_url b.url
        → is_empty (origin_of parse_url b.url) ≡ true

  backends_apart_lem :
      (s : Origins) (m : Map ProcessConfig) (bs : List BackendConfig) (i : Text) (a : ProcessConfig)
      (b : BackendConfig)
      → claim_ports parse_url no_origins m ≡ inr s
      → check_backends parse_url s bs ≡ none
      → In (i, a) m
      → In b bs
      → origin_of parse_url a.readiness_url ≡ origin_of parse_url b.url
      → is_empty (origin_of parse_url b.url) ≡ true
  backends_apart_lem s m bs i a b claimed ok ha hb same =
      elim (Bool-cases (is_empty (origin_of parse_url b.url))) [
        | inl e ↦ e
        | inr full ↦ ground (
          arith,
          claim_ports-enters parse_url no_origins m s i a,
          check_backends-free s bs b ok hb full,
        )
      ]

  -- When `ValidatePortCollisions` accepts a configuration, two different background models with one
  -- readiness origin declare the same gpu and neither is resident, and no backend has the origin of
  -- a model, coding or background (an origin that cannot be derived counts as none).
  pub validate_port_collisions-IsCollisionFree :
      (c : YamlConfig) (sc : SchedulingConfig)
      → c.scheduling ≡ some sc
      → validate_port_collisions parse_url c ≡ none
      → IsCollisionFree c sc
  unfolding validate_port_collisions
  validate_port_collisions-IsCollisionFree c sc on ok =
      at_claims (claim_ports parse_url no_origins sc.models) refl
    where
      at_claims :
          (r : PortError ⊎ Origins)
          → claim_ports parse_url no_origins sc.models ≡ r
          → IsCollisionFree c sc
      at_claims (inl x) e = cc (on, e, ok)
      at_claims (inr s) e = record {
        backgrounds_swap = λ i j a b ha hb.
            claim_ports-SwapsWith parse_url no_origins sc.models s i j a b e
              (lookup→In i a sc.models ha) (lookup→In j b sc.models hb);
        backends_apart = λ i a b ha hb.
            backends_apart_lem s sc.models c.backends i a b e (ground arith)
              (lookup→In i a sc.models ha) hb;
      }
