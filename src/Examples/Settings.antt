-- ===== src/Examples/Settings.antt =====
-- A configuration file, a DSN and a write.
use llama_proxy.Prelude.{
  ℕ, ◌*◌, ◌≤◌, ◌<◌, ◌≡◌, ◌↔◌, refl, true, Bool, Option, none, some, [], ◌∷◌, Text, codes, Map,
  lookup, keys, insert, delete, eq_text, is_empty, is_space, trim_space, trim_left_if,
  trim_right_if, sort_texts, leb_text, ◌⊎◌, inl, inr, arith, Distinct, if◌then◌else◌, ltb,
}
use llama_proxy.Config.Validation.{
  validate_scheduling, check_entries, check_entry, check_group, gpu_of, check_residents,
  check_pinned, claim_residents,
}
use llama_proxy.Config.ModelIds.{
  validate_model_ids, locate, locate_backends, locate_models, scheduled_ids,
}
use llama_proxy.Config.Ports.{validate_port_collisions, check_backends, claim_ports, origin_of}
use llama_proxy.Config.{default_background_group, start_ids, YamlConfig, mode_background}
use llama_proxy.Config.Loading.{
  LegacyConfig, LoadError, Decoded, mapping, load, complete, check_loaded, to_legacy,
  check_legacy_routing, decode_scheduling_models, decode_entries, validate_routing, validate_rules,
  canonical_rules, canonical_names, set_config_defaults, server_defaults, database_defaults,
  proxy_defaults, backend_defaults, model_defaults, scheduling_defaults, second,
}
use llama_proxy.Config.Loading.Defaults.{to_legacy-exact}
use llama_proxy.Config.Loading.Checks.{IsReady, load-IsReady}
use llama_proxy.Database.Dsn.{Url, is_special, cut, parse_kv, print_kv}
use llama_proxy.Database.Dsn.Fields.{AllNames}
use llama_proxy.Database.Dsn.RoundTrip.{AllValues, parse_kv-print_kv}
use llama_proxy.Database.Retry.{retry_write, IsLast, retry_write-IsLast}
use llama_proxy.Examples.{yaml, model, name_a}

to_legacy-exact_example :
    (l : LegacyConfig) × (to_legacy (set_config_defaults yaml) ≡ some l)
    × (((l.request_timeout ≡ (set_config_defaults yaml).proxy.request_timeout * second)
          × (0 < l.request_timeout)
          × (l.request_timeout < 9223372036854775808))
        ↔ ((set_config_defaults yaml).proxy.request_timeout ≤ 9223372036))
to_legacy-exact_example = to_legacy-exact yaml

abbrev always : YamlConfig → Bool
always c = true

abbrev no_url : Text → Option (Text × Text)
no_url t = none

abbrev same_text : Text → Text
same_text t = t

-- A file with one model, beside the backends.
abbrev file : Decoded
file = record {
  yaml = yaml;
  legacy = [];
  raw = (name_a, mapping true (some (model mode_background (32 ∷ 48 ∷ []) true))) ∷ [];
}

abbrev config_in : LoadError ⊎ YamlConfig → YamlConfig
config_in (inl x) = yaml
config_in (inr c) = c

abbrev loaded : LoadError ⊎ YamlConfig
loaded = load always no_url same_text same_text (some file)

loaded-accepts : loaded ≡ inr (config_in loaded)
unfolding load complete check_loaded check_legacy_routing decode_scheduling_models decode_entries
    validate_routing validate_rules canonical_rules canonical_names set_config_defaults
    server_defaults database_defaults proxy_defaults backend_defaults model_defaults
    scheduling_defaults validate_scheduling check_entries check_entry check_group gpu_of
    check_residents check_pinned claim_residents validate_model_ids locate locate_backends
    locate_models scheduled_ids validate_port_collisions check_backends claim_ports origin_of
    default_background_group start_ids lookup insert delete keys eq_text is_empty sort_texts
    leb_text trim_space trim_left_if trim_right_if is_space
loaded-accepts = refl

load-IsReady_example : IsReady always no_url same_text same_text (config_in loaded)
load-IsReady_example =
    load-IsReady always no_url same_text same_text (some file) (config_in loaded) loaded-accepts

-- A DSN with a quoted password.
abbrev parameters : Map Text
parameters =
    (codes "host", codes "h") ∷ (codes "password", codes "a' b") ∷ (codes "dbname", codes "d") ∷ []

parameters-AllNames : AllNames parameters
unfolding is_special cut trim_space trim_left_if trim_right_if is_space
parameters-AllNames = ((refl, refl, refl), ((refl, refl, refl), ((refl, refl, refl), tt)))

parameters-AllValues : AllValues parameters
unfolding is_special trim_space trim_left_if trim_right_if is_space
parameters-AllValues = (inr refl, (inl refl, (inr refl, tt)))

parameters-Distinct : Distinct (keys parameters)
unfolding keys
parameters-Distinct = ground arith

parse_kv-print_kv_example : parse_kv (print_kv parameters) ≡ inr parameters
parse_kv-print_kv_example =
    parse_kv-print_kv parameters parameters-AllNames parameters-AllValues parameters-Distinct

abbrev no_parse : Text → Option Url
no_parse t = none

abbrev dsn : Text
dsn = codes "host=h password='a'' b' dbname=d"

-- A write that is busy twice.
abbrev busy_twice : ℕ → Option Text
busy_twice n = if ltb n 2 then some (codes "database is locked") else none

retry_write-IsLast_example :
    (last : ℕ) × IsLast same_text busy_twice 5 0 (retry_write same_text busy_twice) last
retry_write-IsLast_example = retry_write-IsLast same_text busy_twice
