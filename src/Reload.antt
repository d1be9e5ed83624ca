-- ===== src/Reload.antt =====
-- config_watch.go: the new configuration that a changed file brings, applied to the running server. The HTTP
-- client and the store are there; the broadcast and the log messages are left out.
pub mod Pool
pub mod Notice
use llama_proxy.Prelude.{
  Map, ℕ, Bool, true, false, not, ◌&&◌, Option, none, some, List, [], ◌∷◌, ◌++◌, Text, codes, Map,
  eq_text, is_empty, sort_texts, ltb, length, ◌==◌, if◌then◌else◌, ◌⊎◌, inl, inr,
}
use llama_proxy.Config.{
  ProcessConfig, BackendConfig, SchedulingConfig, DatabaseConfig, YamlConfig,
  default_background_group,
}
use llama_proxy.Config.Loading.{LegacyConfig, LoadError, to_legacy}
use llama_proxy.Balancer.{Strategies, Balancer, new, update}
use llama_proxy.Scheduler.{Slot, Env, Scheduler, set_timings}
use llama_proxy.Pool.{sync_local_backend_nodes}

-- The fields of `Server` that a reload and the synchronisation of the pool touch; a nil pointer is `none`.
pub record Server (B : Type 0) : Type 0 where
  pub cfg : LegacyConfig
  pub yaml_cfg : YamlConfig
  pub static_backends : List BackendConfig
  pub balancer : Option (Balancer B)
  pub scheduler : Option Scheduler
  pub local_node_sig : Text
  pub client_timeout : ℕ
  pub retention_days : ℕ

-- strings.Join with commas.
unfoldable pub join_commas : List Text → Text
join_commas [] = []
join_commas (x ∷ []) = x
join_commas (x ∷ y ∷ xs) = x ++ codes "," ++ join_commas (y ∷ xs)

abbrev pub launch_entry : Text → ProcessConfig → Text
launch_entry id e =
    id ++ (codes "|" ++ (e.mode ++ (codes "|" ++ (e.command ++ (codes "|" ++ e.readiness_url)))))

unfoldable pub launch_entries : Map ProcessConfig → List Text
launch_entries [] = []
launch_entries ((id, e) ∷ m) = launch_entry id e ∷ launch_entries m

pub record SchedulingLaunch : Type 0 where
  pub default : Text
  pub entries : List Text

unfoldable pub process_launch : Option SchedulingConfig → SchedulingLaunch
unfolding join_commas launch_entries
process_launch none = record { default = []; entries = [] }
process_launch (some sc) = record {
  default = join_commas (sort_texts (default_background_group sc));
  entries = sort_texts (launch_entries sc.models);
}

unfoldable pub same_texts : List Text → List Text → Bool
same_texts [] [] = true
same_texts [] (y ∷ ys) = false
same_texts (x ∷ xs) [] = false
same_texts (x ∷ xs) (y ∷ ys) = eq_text x y && same_texts xs ys

unfoldable pub same_scheduling_launch : SchedulingLaunch → SchedulingLaunch → Bool
unfolding same_texts
same_scheduling_launch a b = eq_text a.default b.default && same_texts a.entries b.entries

unfoldable pub same_database : DatabaseConfig → DatabaseConfig → Bool
same_database a b =
    eq_text a.kind b.kind
    && (eq_text a.sqlite_path b.sqlite_path
        && (eq_text a.postgresql.dsn b.postgresql.dsn
            && ((a.postgresql.max_open_conns == b.postgresql.max_open_conns)
                && ((a.postgresql.max_idle_conns == b.postgresql.max_idle_conns)
                    && (a.postgresql.conn_max_lifetime == b.postgresql.conn_max_lifetime)))))

-- A setting that cannot be changed while the server runs.
pub data Setting : Type 0 where
  listen_addr : Setting
  data_dir : Setting
  database : Setting
  poll_backend_metrics : Setting
  poll_interval : Setting
  scheduling : Setting

abbrev pub unless : Bool → Setting → List Setting → List Setting
unless same x rest = if same then rest else x ∷ rest

abbrev pub same_bool : Bool → Bool → Bool
same_bool true b = b
same_bool false b = not b

-- The list `restart`.
unfoldable pub restart_required :
    LegacyConfig → YamlConfig → LegacyConfig → YamlConfig → List Setting
unfolding same_database same_scheduling_launch process_launch
restart_required old old_yaml l c = unless (eq_text l.listen_addr old.listen_addr) listen_addr (
    unless (eq_text l.data_dir old.data_dir) data_dir (
      unless (same_database old_yaml.database c.database) database (
        unless (same_bool l.poll_backend_metrics old.poll_backend_metrics) poll_backend_metrics (
          unless (l.poll_interval == old.poll_interval) poll_interval (
            unless
              (same_scheduling_launch (process_launch old_yaml.scheduling)
                (process_launch c.scheduling))
              scheduling [])))))

unfoldable pub reload_scheduler : Option Scheduler → YamlConfig → Option Scheduler
reload_scheduler none c = none
reload_scheduler (some s) c = elim c.scheduling [
  | none ↦ some s
  | some sc ↦ some (set_timings s sc.lease.coding_idle_timeout sc.switch)
]

module _ {B : Type 0} (S : Strategies B) where
  unfoldable pub reload_balancer : Option (Balancer B) → YamlConfig → Option (Balancer B)
  reload_balancer (some bb) c = some (update S bb c.backends)
  reload_balancer none c =
      if ltb 0 (length c.backends) then some (new S c.backends c.strategy) else none

  -- The server after `reloadConfig`, and the settings that want a restart.
  unfoldable pub reload_config : Server B → LegacyConfig → YamlConfig → Server B × List Setting
  unfolding reload_balancer reload_scheduler restart_required
  reload_config s l c = (
    record s {
      cfg = l;
      yaml_cfg = c;
      static_backends = c.backends;
      balancer = reload_balancer s.balancer c;
      scheduler = reload_scheduler s.scheduler c;
      client_timeout = l.request_timeout;
      retention_days = l.retention_days;
    },
    restart_required s.cfg s.yaml_cfg l c,
  )

  -- `reloadConfigFrom`, given what `Load` makes of the file; `none` where `ToLegacy` dereferences nil.
  unfoldable pub reload_config_from :
      Server B → LoadError ⊎ YamlConfig → Option (Server B × List Setting)
  unfolding reload_config
  reload_config_from s (inl x) = some (s, [])
  reload_config_from s (inr c) = elim (to_legacy c) [
    | none ↦ none
    | some l ↦ some (reload_config s l c)
  ]

  -- `syncLocalBackendNodes` on the server; `order` is the order in which `LocalNodes` visits the Go map of slots.
  unfoldable pub sync : Env → (Map Slot → Map Slot) → Server B → Server B
  sync env order s = elim s.balancer [
    | none ↦ s
    | some bb ↦ elim s.scheduler [
      | none ↦ s
      | some sch ↦
          let visited = record sch { procs = order sch.procs } in
          let r = sync_local_backend_nodes S env visited s.static_backends (bb, s.local_node_sig) in
          record s { balancer = some r.0; local_node_sig = r.1 }
    ]
  ]
