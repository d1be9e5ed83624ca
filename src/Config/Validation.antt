-- ===== src/Config/Validation.antt =====
-- internal/config/scheduling.go: `validateScheduling`, check by check.
use llama_proxy.Prelude.{
  not, ◌&&◌, ◌||◌, Option, none, some, ◌⊎◌, inl, inr, List, [], ◌∷◌, Text, Map, lookup, insert,
  eq_text, is_empty, trim_space, if◌then◌else◌, ltb,
}
use llama_proxy.Config.{
  ProcessConfig, SchedulingConfig, is_coding, is_background, default_background_group,
}

pub data ConfigError : Type 0 where
  missing_mode : Text → ConfigError
  bad_mode : Text → Text → ConfigError
  missing_readiness_url : Text → ConfigError
  autostart_not_background : Text → ConfigError
  resident_not_background : Text → ConfigError
  no_pool_not_background : Text → ConfigError
  sleep_not_background : Text → ConfigError
  sleep_without_no_pool : Text → ConfigError
  start_set_gpu : Text → Text → Text → ConfigError
  two_residents : Text → Text → Text → ConfigError
  gpu_pinned : Text → Text → Text → ConfigError

-- The body of the first loop.
unfoldable pub check_entry : Text → ProcessConfig → Option ConfigError
check_entry id e =
    if is_empty (trim_space e.mode)
    then some (missing_mode id)
    else if not (is_coding e) && not (is_background e)
    then some (bad_mode id e.mode)
    else if not (is_empty e.command) && is_empty (trim_space e.readiness_url)
    then some (missing_readiness_url id)
    else if e.autostart && not (is_background e)
    then some (autostart_not_background id)
    else if e.resident && not (is_background e)
    then some (resident_not_background id)
    else if e.no_pool && not (is_background e)
    then some (no_pool_not_background id)
    else if ltb 0 e.sleep_timeout && not (is_background e)
    then some (sleep_not_background id)
    else if ltb 0 e.sleep_timeout && not e.no_pool
    then some (sleep_without_no_pool id)
    else none

unfoldable pub check_entries : Map ProcessConfig → Option ConfigError
check_entries [] = none
check_entries ((id, e) ∷ m) =
    let rest = check_entries m in elim (check_entry id e) [ some x ↦ some x | none ↦ rest ]

-- The gpu that a model declares, empty for an unknown model.
unfoldable pub gpu_of : Map ProcessConfig → Text → Text
gpu_of m id = elim (lookup id m) [ none ↦ [] | some e ↦ e.gpu ]

-- The second loop; `seen` is `groupGPU`.
unfoldable pub check_group : Map ProcessConfig → Map Text → List Text → Option ConfigError
check_group m seen [] = none
check_group m seen (d ∷ ds) =
    let gpu = gpu_of m d in
    let skip = check_group m seen ds in
    let next = check_group m (insert gpu d seen) ds in
    if is_empty gpu
    then skip
    else elim (lookup gpu seen) [ some prev ↦ some (start_set_gpu d gpu prev) | none ↦ next ]

-- The third loop; `seen` is `gpuResident`.
unfoldable pub claim_residents : Map Text → Map ProcessConfig → ConfigError ⊎ Map Text
claim_residents seen [] = inr seen
claim_residents seen ((id, e) ∷ m) =
    let skip = claim_residents seen m in
    let next = claim_residents (insert e.gpu id seen) m in
    if is_empty e.gpu || not e.resident
    then skip
    else elim (lookup e.gpu seen) [ some prev ↦ inl (two_residents id e.gpu prev) | none ↦ next ]

-- The fourth loop.
unfoldable pub check_pinned : Map Text → Map ProcessConfig → Option ConfigError
check_pinned residents [] = none
check_pinned residents ((id, e) ∷ m) =
    let rest = check_pinned residents m in
    if is_empty e.gpu then rest else elim (lookup e.gpu residents) [
      | some r ↦ if eq_text r id then rest else some (gpu_pinned id e.gpu r)
      | none ↦ rest
    ]

unfoldable pub check_residents : Map ProcessConfig → Option ConfigError
check_residents m = elim (claim_residents [] m) [
  | inl x ↦ some x
  | inr residents ↦ check_pinned residents m
]

abbrev or_next : Option ConfigError → Option ConfigError → Option ConfigError
or_next (some x) next = some x
or_next none next = next

unfoldable pub validate_scheduling : SchedulingConfig → Option ConfigError
validate_scheduling sc =
    or_next (check_entries sc.models)
      (or_next (check_group sc.models [] (default_background_group sc)) (check_residents sc.models))
