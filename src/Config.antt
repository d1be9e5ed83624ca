-- ===== src/Config.antt =====
-- internal/config: the configuration types of scheduling.go, config.go and routing.go, and the
-- queries on them. A weight, a port or a duration is a natural number: the validator refuses
-- weights below 1, and a duration below 0 is tested like 0. A duration counts nanoseconds.
pub mod Validation
pub mod Gpu
pub mod ModelIds
pub mod Ports
pub mod Loading
use llama_proxy.Prelude.{
  ℤ, pos, negsuc, ℕ, zero, suc, Bool, true, false, Option, none, some, List, [], ◌∷◌, Text, codes,
  Map, lookup, eq_text, is_empty, trim_space, sort_texts, if◌then◌else◌, ◌&&◌, not, has_prefix,
  ◌||◌, keys, length, ltb,
}

abbrev pub mode_coding : Text
mode_coding = codes "coding"

abbrev pub mode_background : Text
mode_background = codes "background"

pub record ProcessConfig : Type 0 where
  pub command : Text
  pub mode : Text
  pub readiness_url : Text
  pub api_key : Text
  pub log_file : Text
  pub weight : ℕ
  pub tags : List Text
  pub autostart : Bool
  pub resident : Bool
  pub no_pool : Bool
  pub sleep_timeout : ℕ
  pub gpu : Text

pub record BackendConfig : Type 0 where
  pub name : Text
  pub url : Text
  pub weight : ℕ
  pub model : Text
  pub api_key : Text
  pub tags : List Text

pub record LeaseConfig : Type 0 where
  pub coding_idle_timeout : ℤ

pub record SwitchConfig : Type 0 where
  pub drain_timeout : ℤ
  pub kill_timeout : ℤ
  pub startup_timeout : ℤ

pub record SchedulingConfig : Type 0 where
  pub models : Map ProcessConfig
  pub lease : LeaseConfig
  pub switch : SwitchConfig

pub record RoutingRule : Type 0 where
  pub name : Text
  pub header : Map Text
  pub pool : Text

pub record ServerConfig : Type 0 where
  pub listen_addr : Text
  pub data_dir : Text
  pub ui_allowed_hosts : List Text
  pub log_level : Text

pub record PostgreSqlConfig : Type 0 where
  pub dsn : Text
  pub max_open_conns : ℕ
  pub max_idle_conns : ℕ
  pub conn_max_lifetime : ℕ

pub record DatabaseConfig : Type 0 where
  pub kind : Text
  pub sqlite_path : Text
  pub postgresql : PostgreSqlConfig

pub record ProxyConfig : Type 0 where
  pub retention_days : Option ℕ
  pub max_request_bytes : ℕ
  pub max_capture_bytes : ℕ
  pub request_timeout : ℕ
  pub poll_backend_metrics : Option Bool
  pub poll_interval : ℕ
  pub record_paths : List Text
  pub api_key : Text

-- `backends` and `strategy` are the fields of BackendsConfig; a nil pointer is `none`.
pub record YamlConfig : Type 0 where
  pub server : ServerConfig
  pub database : DatabaseConfig
  pub backends : List BackendConfig
  pub strategy : Text
  pub proxy : ProxyConfig
  pub routing : Option (List RoutingRule)
  pub scheduling : Option SchedulingConfig

unfoldable pub entry : SchedulingConfig → Text → Option ProcessConfig
entry c model_id = lookup (trim_space model_id) c.models

abbrev pub is_coding : ProcessConfig → Bool
is_coding e = eq_text e.mode mode_coding

abbrev pub is_background : ProcessConfig → Bool
is_background e = eq_text e.mode mode_background

abbrev pub in_start_set : ProcessConfig → Bool
in_start_set e = is_background e && e.autostart

-- The loop of `DefaultBackgroundGroup`, over the keys of the map.
unfoldable pub start_ids : Map ProcessConfig → List Text → List Text
start_ids m [] = []
start_ids m (id ∷ ids) =
    let rest = start_ids m ids in
    elim (lookup id m) [ none ↦ rest | some e ↦ if in_start_set e then id ∷ rest else rest ]

unfoldable pub default_background_group : SchedulingConfig → List Text
unfolding start_ids
default_background_group c = sort_texts (start_ids c.models (keys c.models))

pub background_ids : Map ProcessConfig → List Text
background_ids [] = []
background_ids ((id, e) ∷ m) =
    let rest = background_ids m in if is_background e then id ∷ rest else rest

entries_at : Map ProcessConfig → List Text → List ProcessConfig
entries_at m [] = []
entries_at m (id ∷ ids) =
    let rest = entries_at m ids in elim (lookup id m) [ some e ↦ e ∷ rest | none ↦ rest ]

unfoldable pub background_models : SchedulingConfig → List ProcessConfig
unfolding background_ids entries_at
background_models c = entries_at c.models (sort_texts (background_ids c.models))

-- The keys of the set that both `EffectiveTags` methods return.
unfoldable pub effective_tags : List Text → List Text
effective_tags [] = []
effective_tags (t ∷ ts) =
    let rest = effective_tags ts in
    let trimmed = trim_space t in if is_empty trimmed then rest else trimmed ∷ rest

pub data UrlError : Type 0 where
  url_empty : UrlError
  url_scheme : UrlError

unfoldable pub validate_backend_url : Text → Option UrlError
validate_backend_url raw =
    if is_empty (trim_space raw)
    then some url_empty
    else if not (has_prefix raw (codes "http://")) && not (has_prefix raw (codes "https://"))
    then some url_scheme
    else none

unfoldable pub has_scheduling : YamlConfig → Bool
has_scheduling c = elim c.scheduling [ none ↦ false | some sc ↦ ltb 0 (length sc.models) ]
