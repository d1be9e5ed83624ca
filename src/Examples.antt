-- ===== src/Examples.antt =====
-- Small concrete inputs: two backends, three models of which two share a gpu, and a system.
mod Balancing
mod Forwarding
mod Configs
mod Switches
mod Sections
mod Requests
mod Routes
mod Settings
mod Systems
use llama_proxy.Prelude.{
  ℤ, pos, negsuc, ℕ, Bool, true, false, Option, none, some, List, [], ◌∷◌, Text, codes, Map, keys,
  ◌==◌, if◌then◌else◌,
}
use llama_proxy.Config.{
  ProcessConfig, BackendConfig, LeaseConfig, SwitchConfig, SchedulingConfig, ServerConfig,
  PostgreSqlConfig, DatabaseConfig, ProxyConfig, YamlConfig, mode_coding, mode_background,
}
use llama_proxy.Balancer.{Strategies, Balancer, blank, update}
use llama_proxy.Scheduler.{Env, Slot, Scheduler, default_fail_backoff}

-- A strategy that answers the names in turn.
abbrev pub next_name : List Text → Text × List Text
next_name [] = ([], [])
next_name (name ∷ rest) = (name, rest)

abbrev pub in_turn : Strategies (List Text)
in_turn = record {
  smooth_weighted = λ m. keys m;
  weighted_rand = λ m. keys m;
  weighted = λ m. keys m;
  round_robin = λ names. names;
  random = λ names. names;
  select = next_name;
}

abbrev pub name_a : Text
name_a = 97 ∷ []

abbrev pub name_b : Text
name_b = 98 ∷ []

abbrev pub backend : Text → ℕ → BackendConfig
backend name weight = record {
  name = name;
  url = codes "http://h";
  weight = weight;
  model = [];
  api_key = [];
  tags = (103 ∷ []) ∷ [];
}

abbrev pub two_backends : List BackendConfig
two_backends = backend name_a 1 ∷ backend name_b 3 ∷ []

abbrev pub tag_g : Text
tag_g = 103 ∷ []

abbrev pub empty_pool : Balancer (List Text)
empty_pool = blank in_turn name_a

abbrev pub model : Text → Text → Bool → ProcessConfig
model mode gpu autostart = record {
  command = 99 ∷ [];
  mode = mode;
  readiness_url = 117 ∷ [];
  api_key = [];
  log_file = [];
  weight = 1;
  tags = [];
  autostart = autostart;
  resident = false;
  no_pool = false;
  sleep_timeout = 0;
  gpu = gpu;
}

-- A coding model `c` and two background models, `a` and `b`; `a` shares the gpu of `c`.
abbrev pub three_models : SchedulingConfig
three_models = record {
  models =
      (99 ∷ [], model mode_coding (48 ∷ []) false)
      ∷ (name_a, model mode_background (48 ∷ []) true)
      ∷ (name_b, model mode_background (49 ∷ []) true)
      ∷ [];
  lease = record { coding_idle_timeout = pos 0 };
  switch = record { drain_timeout = pos 0; kill_timeout = pos 0; startup_timeout = pos 0 };
}

-- A configuration file that only lists backends and models, and limits a request to two bytes.
abbrev pub yaml : YamlConfig
yaml = record {
  server = record { listen_addr = []; data_dir = []; ui_allowed_hosts = []; log_level = [] };
  database = record {
    kind = [];
    sqlite_path = [];
    postgresql = record { dsn = []; max_open_conns = 0; max_idle_conns = 0; conn_max_lifetime = 0 };
  };
  backends = two_backends;
  strategy = [];
  proxy = record {
    retention_days = none;
    max_request_bytes = 2;
    max_capture_bytes = 0;
    request_timeout = 0;
    poll_backend_metrics = none;
    poll_interval = 0;
    record_paths = [];
    api_key = [];
  };
  routing = none;
  scheduling = some three_models;
}

abbrev pub if_seven : ℕ → Option ℕ
if_seven n = if n == 7 then some 20 else none

-- Every process is alive; nothing listens but on port 7.
abbrev pub system : Env
system = record {
  now = 5;
  self = 1;
  kill_zero = λ pid. true;
  listener = if_seven;
  spawn = λ id. some 12;
  open_log = λ name. true;
  host_port = λ url. some 9;
  url_origin = λ url. some (104 ∷ [], 104 ∷ []);
}

abbrev pub idle : Scheduler
idle = record {
  cfg = three_models;
  lease = pos 0;
  sw = three_models.switch;
  switch_target = [];
  switch_mode = [];
  switch_cancel = false;
  preempted = false;
  procs = [];
  expected = [];
  coding_model = [];
  last_coding_at = none;
  started = true;
  fail_count = [];
  next_restart_at = [];
  fail_backoff = default_fail_backoff;
  last_active_at = [];
  inflight = [];
  next_ch = 1;
  closed_chs = [];
}

abbrev pub name_c : Text
name_c = 99 ∷ []

-- A slot with the process of shell `cmd` and of server `server_pid`.
abbrev pub slot_of : Option ℕ → ℕ → ℕ → Bool → Slot
slot_of cmd server_pid port ready = record {
  cmd = cmd;
  port = port;
  server_pid = server_pid;
  log_open = false;
  ready_ok = ready;
  ready_ch = 0;
  ready_ch_closed = false;
  sleeping = false;
  load_started_at = none;
  last_load_duration = 0;
}

-- The coding model runs.
abbrev pub busy : Scheduler
busy = record idle { procs = (name_c, slot_of (some 11) 0 0 false) ∷ []; coding_model = name_c }

-- A background model is ready.
abbrev pub serving : Scheduler
serving = record idle { procs = (name_a, slot_of (some 11) 0 0 true) ∷ [] }

-- The model `a` has crashed; `c` is served on the port that they share.
abbrev pub shadowed : Scheduler
shadowed = record idle {
  procs = (name_a, slot_of none 0 7 false) ∷ (name_c, slot_of none 20 7 true) ∷ [];
}
