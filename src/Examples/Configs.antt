-- ===== src/Examples/Configs.antt =====
-- The validators accept two backends and three models.
use llama_proxy.Prelude.{
  ◌≡◌, ◌↔◌, refl, true, false, Option, none, some, [], ◌∷◌, Text, lookup, insert, keys, is_empty,
  is_space, eq_text, trim_space, trim_left_if, trim_right_if, sort_texts, leb_text,
}
use llama_proxy.Config.{
  SchedulingConfig, YamlConfig, default_background_group, start_ids, mode_coding, mode_background,
}
use llama_proxy.Config.Validation.{
  validate_scheduling, check_entries, check_entry, check_group, gpu_of, check_residents,
  claim_residents, check_pinned,
}
use llama_proxy.Config.Gpu.{IsValid, validate_scheduling-IsValid}
use llama_proxy.Config.ModelIds.{
  validate_model_ids, validate_model_ids-exact, configured_ids, IsUnambiguous,
}
use llama_proxy.Config.Ports.{validate_port_collisions, claim_ports, check_backends, origin_of}
use llama_proxy.Config.Ports.Collisions.{validate_port_collisions-IsCollisionFree, IsCollisionFree}
use llama_proxy.Examples.{three_models, yaml, model, name_a}

three_models-accepted : validate_scheduling three_models ≡ none
unfolding validate_scheduling check_entries check_entry check_group gpu_of check_residents
    claim_residents check_pinned default_background_group start_ids keys sort_texts leb_text lookup
    insert eq_text is_empty trim_space trim_left_if trim_right_if is_space
three_models-accepted = refl

validate_scheduling-IsValid_example : IsValid three_models
validate_scheduling-IsValid_example = validate_scheduling-IsValid three_models three_models-accepted

validate_model_ids-exact_example :
    (validate_model_ids yaml ≡ none) ↔ IsUnambiguous (configured_ids yaml)
validate_model_ids-exact_example = validate_model_ids-exact yaml

-- Every address is its own origin; a coding model and a background model of one gpu share one.
abbrev own_origin : Text → Option (Text × Text)
own_origin url = some (url, url)

abbrev two_models : SchedulingConfig
two_models = record three_models {
  models =
      (99 ∷ [], model mode_coding (48 ∷ []) false)
      ∷ (name_a, model mode_background (48 ∷ []) true)
      ∷ [];
}

abbrev small_yaml : YamlConfig
small_yaml = record yaml { scheduling = some two_models }

ports-accepted : validate_port_collisions own_origin small_yaml ≡ none
unfolding validate_port_collisions claim_ports check_backends origin_of lookup insert eq_text
    is_empty
ports-accepted = refl

validate_port_collisions-IsCollisionFree_example : IsCollisionFree own_origin small_yaml two_models
validate_port_collisions-IsCollisionFree_example =
    validate_port_collisions-IsCollisionFree own_origin small_yaml two_models refl ports-accepted
