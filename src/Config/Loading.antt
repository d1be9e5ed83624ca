-- ===== src/Config/Loading.antt =====
-- internal/config/config.go, routing.go and scheduling.go: `Load` after the file is decoded. What
-- viper, mapstructure and yaml.v3 decode is `Decoded`; the declarative checks of go-playground/validator are
-- the parameter `struct_valid`, and the canonical header names and the upper case are parameters.
pub mod Defaults
pub mod Checks
use llama_proxy.Prelude.{
  ℤ, pos, negsuc, ℕ, ◌+◌, ◌*◌, ◌%◌, Bool, true, false, not, ◌&&◌, ◌||◌, Option, none, some, List,
  [], ◌∷◌, ◌++◌, Text, codes, Map, lookup, insert, delete, keys, eq_text, is_empty, trim_space,
  if◌then◌else◌, ltb, length, ◌==◌, or_else, ◌⊎◌, inl, inr,
}
use llama_proxy.Config.{
  ProcessConfig, BackendConfig, LeaseConfig, SwitchConfig, SchedulingConfig, RoutingRule,
  ServerConfig, PostgreSqlConfig, DatabaseConfig, ProxyConfig, YamlConfig,
}
use llama_proxy.Config.Validation.{ConfigError, validate_scheduling}
use llama_proxy.Config.ModelIds.{IdError, validate_model_ids}
use llama_proxy.Config.Ports.{PortError, validate_port_collisions}

abbrev pub default_to : ℕ → ℕ → ℕ
default_to d n = if n == 0 then d else n

-- A duration of zero nanoseconds is replaced; one below zero is kept.
unfoldable pub duration_or : ℕ → ℤ → ℤ
duration_or d (pos n) = pos (default_to d n)
duration_or d (negsuc n) = negsuc n

abbrev pub text_or : Text → Text → Text
text_or d t = if is_empty t then d else t

abbrev pub second : ℕ
second = 1000000000

abbrev pub default_paths : List Text
default_paths = codes "/v1/chat/completions" ∷ codes "/v1/completions" ∷ codes "/v1/embeddings" ∷ []

unfoldable pub server_defaults : ServerConfig → ServerConfig
server_defaults v = record v {
  listen_addr = text_or (codes ":9091") v.listen_addr;
  data_dir = text_or (codes "./data") v.data_dir;
}

unfoldable pub database_defaults : DatabaseConfig → DatabaseConfig
database_defaults d = record {
  kind = text_or (codes "sqlite") d.kind;
  sqlite_path = text_or (codes "proxy.db") d.sqlite_path;
  postgresql = record {
    dsn = d.postgresql.dsn;
    max_open_conns = default_to 25 d.postgresql.max_open_conns;
    max_idle_conns = default_to 5 d.postgresql.max_idle_conns;
    conn_max_lifetime = default_to 300 d.postgresql.conn_max_lifetime;
  };
}

unfoldable pub proxy_defaults : ProxyConfig → ProxyConfig
proxy_defaults p = record p {
  retention_days = some (or_else 14 p.retention_days);
  max_request_bytes = default_to 33554432 p.max_request_bytes;
  max_capture_bytes = default_to 33554432 p.max_capture_bytes;
  request_timeout = default_to 600 p.request_timeout;
  poll_interval = default_to 10 p.poll_interval;
  poll_backend_metrics = some (or_else true p.poll_backend_metrics);
  record_paths = elim p.record_paths [ [] ↦ default_paths | x ∷ xs ↦ x ∷ xs ];
}

unfoldable pub backend_defaults : List BackendConfig → List BackendConfig
backend_defaults [] = []
backend_defaults (b ∷ bs) = record b { weight = default_to 1 b.weight } ∷ backend_defaults bs

unfoldable pub model_defaults : Map ProcessConfig → Map ProcessConfig
model_defaults [] = []
model_defaults ((id, e) ∷ m) = (id, record e { weight = default_to 1 e.weight }) ∷ model_defaults m

unfoldable pub scheduling_defaults : SchedulingConfig → SchedulingConfig
unfolding model_defaults duration_or
scheduling_defaults sc = record {
  models = model_defaults sc.models;
  lease = record { coding_idle_timeout = duration_or (1800 * second) sc.lease.coding_idle_timeout };
  switch = record {
    drain_timeout = duration_or (10 * second) sc.switch.drain_timeout;
    kill_timeout = duration_or (10 * second) sc.switch.kill_timeout;
    startup_timeout = duration_or (120 * second) sc.switch.startup_timeout;
  };
}

abbrev pub map_some : {A B : Type 0} → (A → B) → Option A → Option B
map_some f none = none
map_some f (some x) = some (f x)

unfoldable pub set_config_defaults : YamlConfig → YamlConfig
unfolding server_defaults database_defaults proxy_defaults backend_defaults scheduling_defaults
set_config_defaults c = record {
  server = server_defaults c.server;
  database = database_defaults c.database;
  backends = backend_defaults c.backends;
  strategy = text_or (codes "wrr") c.strategy;
  proxy = proxy_defaults c.proxy;
  routing = c.routing;
  scheduling = map_some scheduling_defaults c.scheduling;
}

-- The Go struct `Config`. A time.Duration is kept as its 64 bits.
pub record LegacyConfig : Type 0 where
  pub listen_addr : Text
  pub data_dir : Text
  pub retention_days : ℕ
  pub max_request_bytes : ℕ
  pub max_capture_bytes : ℕ
  pub request_timeout : ℕ
  pub poll_backend_metrics : Bool
  pub poll_interval : ℕ
  pub record_paths : List Text
  pub api_key : Text
  pub ui_allowed_hosts : List Text
  pub log_level : Text

-- `time.Duration(n) * time.Second`, modulo 2 ^ 64.
abbrev pub seconds : ℕ → ℕ
seconds n = (n * second) % 18446744073709551616

-- `none` where the code dereferences a nil pointer.
unfoldable pub to_legacy : YamlConfig → Option LegacyConfig
to_legacy c = elim c.proxy.retention_days [
  | none ↦ none
  | some days ↦ some (record {
    listen_addr = c.server.listen_addr;
    data_dir = c.server.data_dir;
    retention_days = days;
    max_request_bytes = c.proxy.max_request_bytes;
    max_capture_bytes = c.proxy.max_capture_bytes;
    request_timeout = seconds c.proxy.request_timeout;
    poll_backend_metrics = or_else false c.proxy.poll_backend_metrics;
    poll_interval = seconds c.proxy.poll_interval;
    record_paths = c.proxy.record_paths;
    api_key = c.proxy.api_key;
    ui_allowed_hosts = c.server.ui_allowed_hosts;
    log_level = c.server.log_level;
  })
]

pub data LoadError : Type 0 where
  undecodable : LoadError
  legacy_routing : ℕ → LoadError
  scheduling_shape : Text → LoadError
  not_valid : LoadError
  empty_pool : ℕ → LoadError
  empty_header : ℕ → LoadError
  bad_scheduling : ConfigError → LoadError
  bad_ids : IdError → LoadError
  bad_ports : PortError → LoadError

-- One rule as yaml.v3 decodes it: whether it has `match`, and `user_agent_contains`.
unfoldable pub check_legacy_routing : ℕ → List (Bool × Text) → Option LoadError
check_legacy_routing i [] = none
check_legacy_routing i ((has_match, agent) ∷ rules) =
    let rest = check_legacy_routing (i + 1) rules in
    if has_match || not (is_empty agent) then some (legacy_routing i) else rest

-- The loop over the rules of `validateRouting`, from the rule `i` on.
unfoldable pub validate_rules : ℕ → List RoutingRule → Option LoadError
validate_rules i [] = none
validate_rules i (r ∷ rules) =
    let rest = validate_rules (i + 1) rules in
    if is_empty (trim_space r.pool)
    then some (empty_pool i)
    else if length r.header == 0
    then some (empty_header i)
    else rest

unfoldable pub validate_routing : Option (List RoutingRule) → Option LoadError
unfolding validate_rules
validate_routing none = none
validate_routing (some rules) = validate_rules 0 rules

-- A key of the section `scheduling`: no mapping, or a mapping, whether it has the key `command`, and
-- the entry that mapstructure decodes, none on an error.
pub data RawEntry : Type 0 where
  scalar : RawEntry
  mapping : (has_command : Bool) (decoded : Option ProcessConfig) → RawEntry

abbrev pub is_reserved : Text → Bool
is_reserved key = eq_text key (codes "lease") || eq_text key (codes "switch")

abbrev pub claims_reserved : Map RawEntry → Text → Bool
claims_reserved raw key = elim (lookup key raw) [
  | none ↦ false
  | some r ↦ elim r [ scalar ↦ false | mapping has_command decoded ↦ has_command ]
]

module _ (upper : Text → Text) where
  -- The second loop of `decodeSchedulingModels`.
  unfoldable pub decode_entries : Map RawEntry → LoadError ⊎ Map ProcessConfig
  decode_entries [] = inr []
  decode_entries ((key, r) ∷ raw) =
      let rest = decode_entries raw in
      if is_reserved key then rest else elim r [
        | scalar ↦ inl (scheduling_shape key)
        | mapping has_command decoded ↦ elim decoded [
          | none ↦ inl (scheduling_shape key)
          | some e ↦ elim rest [
            | inl x ↦ inl x
            | inr m ↦ inr ((key, record e { gpu = upper (trim_space e.gpu) }) ∷ m)
          ]
        ]
      ]

  unfoldable pub decode_scheduling_models : Map RawEntry → LoadError ⊎ Map ProcessConfig
  unfolding decode_entries
  decode_scheduling_models raw =
      if claims_reserved raw (codes "lease")
      then inl (scheduling_shape (codes "lease"))
      else if claims_reserved raw (codes "switch")
      then inl (scheduling_shape (codes "switch"))
      else decode_entries raw

module _ (canonical : Text → Text) where
  -- The loop of `Load` over the header names of a rule.
  unfoldable pub canonical_names : Map Text → List Text → Map Text
  canonical_names h [] = h
  canonical_names h (k ∷ ks) =
      let moved = delete k (insert (canonical k) (or_else [] (lookup k h)) h) in
      canonical_names (if eq_text (canonical k) k then h else moved) ks

  unfoldable pub canonical_rules : List RoutingRule → List RoutingRule
  unfolding canonical_names
  canonical_rules [] = []
  canonical_rules (r ∷ rules) =
      record r { header = canonical_names r.header (keys r.header) } ∷ canonical_rules rules

-- The configuration as mapstructure decodes it, with no models yet, the rules as yaml.v3 decodes
-- them, and the section `scheduling` as viper gives it.
pub record Decoded : Type 0 where
  pub yaml : YamlConfig
  pub legacy : List (Bool × Text)
  pub raw : Map RawEntry

abbrev pub first_error : Option LoadError → Option LoadError → Option LoadError
first_error (some x) next = some x
first_error none next = next

module _ (canonical upper : Text → Text) where
  -- What `Load` makes of the file before the defaults.
  unfoldable pub complete : Decoded → LoadError ⊎ YamlConfig
  complete d =
      let c = record d.yaml {
        routing = elim d.yaml.routing [
          | none ↦ none
          | some rules ↦ some (canonical_rules canonical rules)
        ];
      } in
      elim d.yaml.scheduling [
        | none ↦ inr c
        | some sc ↦ elim (decode_scheduling_models upper d.raw) [
          | inl x ↦ inl x
          | inr m ↦ inr (record c { scheduling = some (record sc { models = m }) })
        ]
      ]

module _ (struct_valid : YamlConfig → Bool) (parse_url : Text → Option (Text × Text)) where
  -- The checks of `Load`, once the defaults are set.
  unfoldable pub check_loaded : YamlConfig → Option LoadError
  check_loaded c =
      let scheduling_error : Option LoadError = elim c.scheduling [
        | none ↦ none
        | some sc ↦ elim (validate_scheduling sc) [ none ↦ none | some x ↦ some (bad_scheduling x) ]
      ] in
      let ids_error : Option LoadError = elim (validate_model_ids c) [
        | none ↦ none
        | some x ↦ some (bad_ids x)
      ] in
      let ports_error : Option LoadError = elim (validate_port_collisions parse_url c) [
        | none ↦ none
        | some x ↦ some (bad_ports x)
      ] in
      if not (struct_valid c)
      then some not_valid
      else first_error (validate_routing c.routing)
          (first_error scheduling_error (first_error ids_error ports_error))

  module _ (canonical upper : Text → Text) where
    unfoldable pub load : Option Decoded → LoadError ⊎ YamlConfig
    unfolding complete check_loaded
    load none = inl undecodable
    load (some d) = elim (check_legacy_routing 0 d.legacy) [
      | some x ↦ inl x
      | none ↦ elim (complete canonical upper d) [
        | inl x ↦ inl x
        | inr c ↦
            let full = set_config_defaults c in
            elim (check_loaded full) [ some x ↦ inl x | none ↦ inr full ]
      ]
    ]
