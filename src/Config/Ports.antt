-- ===== src/Config/Ports.antt =====
-- internal/config/validate.go: `ValidatePortCollisions`. net/url's Parse is the parameter
-- `parse_url`, which gives the scheme and the host of a URL, or nothing on an error.
pub mod Claims
pub mod Collisions
use llama_proxy.Prelude.{
  ◌≡◌, ◌≢◌, refl, sym, ap, subst, ◌∙◌, Bool, true, false, not, ◌&&◌, ◌||◌, ◌⊎◌, inl, inr, Option,
  none, some, List, [], ◌∷◌, ◌++◌, arith, Text, codes, Map, In, lookup, insert, lookup-insert,
  lookup→In, eq_text, eq_text_iff, eq_text→eq, eq_text_refl, is_empty, is_some, Bool-cases,
  Option-cases, if◌then◌else◌,
}
use llama_proxy.Config.{ProcessConfig, BackendConfig, SchedulingConfig, YamlConfig, is_coding}
use llama_proxy.Config.ModelIds.{Location, backends_list, scheduling}

pub record OriginClaim : Type 0 where
  pub gpu : Text
  pub resident : Bool
  pub place : Location

pub data PortError : Type 0 where
  same_port : Location → Location → Text → PortError

-- The maps `bgSeen` and `codeOrigins`.
pub record Origins : Type 0 where
  pub bg_seen : Map OriginClaim
  pub code_origins : Map Location

abbrev no_origins : Origins
no_origins = record { bg_seen = []; code_origins = [] }

abbrev enter_code : Origins → Text → Location → Origins
enter_code s origin place =
    if is_empty origin || is_some (lookup origin s.code_origins)
    then s
    else record s { code_origins = insert origin place s.code_origins }

abbrev enter_bg : Origins → Text → OriginClaim → Origins
enter_bg s origin c = record s { bg_seen = insert origin c s.bg_seen }

abbrev claim_of : Text → ProcessConfig → OriginClaim
claim_of id e = record { gpu = e.gpu; resident = e.resident; place = scheduling id }

-- One gpu's swap-in group: its members never run together.
abbrev may_share : OriginClaim → ProcessConfig → Bool
may_share c e = not (is_empty e.gpu) && (eq_text e.gpu c.gpu && (not c.resident && not e.resident))

module _ (parse_url : Text → Option (Text × Text)) where
  unfoldable pub origin_of : Text → Text
  origin_of raw = elim (parse_url raw) [
    | none ↦ []
    | some (scheme, host) ↦
        if is_empty scheme || is_empty host then [] else scheme ++ codes "://" ++ host
  ]

  -- The first loop.
  unfoldable pub claim_ports : Origins → Map ProcessConfig → PortError ⊎ Origins
  claim_ports s [] = inr s
  claim_ports s ((id, e) ∷ m) =
      let origin = origin_of e.readiness_url in
      let as_code = claim_ports (enter_code s origin (scheduling id)) m in
      let skip = claim_ports s m in
      let next = claim_ports (enter_bg s origin (claim_of id e)) m in
      if is_coding e
      then as_code
      else if is_empty origin
      then skip
      else elim (lookup origin s.bg_seen) [
        | none ↦ next
        | some c ↦ if may_share c e then skip else inl (same_port c.place (scheduling id) origin)
      ]

  -- The second loop.
  unfoldable pub check_backends : Origins → List BackendConfig → Option PortError
  check_backends s [] = none
  check_backends s (b ∷ bs) =
      let origin = origin_of b.url in
      let rest = check_backends s bs in
      let place = backends_list b.name in
      let code_check : Option PortError = elim (lookup origin s.code_origins) [
        | some prev ↦ some (same_port prev place origin)
        | none ↦ rest
      ] in
      if is_empty origin then code_check else elim (lookup origin s.bg_seen) [
        | some c ↦ some (same_port c.place place origin)
        | none ↦ code_check
      ]

  unfoldable pub validate_port_collisions : YamlConfig → Option PortError
  validate_port_collisions c = elim c.scheduling [
    | none ↦ none
    | some sc ↦ elim (claim_ports no_origins sc.models) [
      | inl x ↦ some x
      | inr s ↦ check_backends s c.backends
    ]
  ]
