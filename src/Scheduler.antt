-- ===== src/Scheduler.antt =====
-- internal/scheduler: the state of the process scheduler (scheduler.go, process.go) and the
-- operations that run in one critical section of `s.mu`. Time and durations count nanoseconds; a
-- zero `time.Time` is `none`. An `exec.Cmd` is known by the pid of its shell, a ready channel by a
-- number, and the closed channels are listed. What the operating system answers is the parameter
-- `Env`. Logging is left out.
pub mod Order
pub mod Overtaking
pub mod Queries
pub mod Backoff
pub mod Process
pub mod Arbitration
pub mod Switching
pub mod Exclusive
pub mod Eviction
pub mod Targets
pub mod Recovery
pub mod Adoption
pub mod Signals
pub mod Channels
pub mod Steps
pub mod Ensure
pub mod Tree
pub mod Release
pub mod Snapshot
pub mod GpuWait
use llama_proxy.Prelude.{
  ℤ, pos, negsuc, ℕ, zero, suc, ◌+◌, ◌-◌, ◌*◌, Bool, true, false, not, ◌&&◌, ◌||◌, Option, none,
  some, List, [], ◌∷◌, ◌++◌, Text, codes, Map, lookup, insert, delete, keys, member, eq_text,
  is_empty, is_some, if◌then◌else◌, ltb, leb, ◌==◌, or_else, trim_space, sort_texts,
}
use llama_proxy.Config.{
  ProcessConfig, SchedulingConfig, SwitchConfig, entry, is_coding, is_background, mode_coding,
  mode_background, default_background_group,
}

-- What the system answers at one moment. `host_port` is the port of a URL, where it has one
-- (net/url, net.SplitHostPort, strconv.Atoi); `url_origin` its scheme and host.
pub record Env : Type 0 where
  pub now : ℕ
  pub self : ℕ
  pub kill_zero : ℕ → Bool
  pub listener : ℕ → Option ℕ
  pub spawn : Text → Option ℕ
  pub open_log : Text → Bool
  pub host_port : Text → Option ℕ
  pub url_origin : Text → Option (Text × Text)

pub record Slot : Type 0 where
  pub cmd : Option ℕ
  pub port : ℕ
  pub server_pid : ℕ
  pub log_open : Bool
  pub ready_ok : Bool
  pub ready_ch : ℕ
  pub ready_ch_closed : Bool
  pub sleeping : Bool
  pub load_started_at : Option ℕ
  pub last_load_duration : ℕ

pub record Scheduler : Type 0 where
  pub cfg : SchedulingConfig
  pub lease : ℤ
  pub sw : SwitchConfig
  pub switch_target : Text
  pub switch_mode : Text
  pub switch_cancel : Bool
  pub preempted : Bool
  pub procs : Map Slot
  pub expected : List Text
  pub coding_model : Text
  pub last_coding_at : Option ℕ
  pub started : Bool
  pub fail_count : Map ℕ
  pub next_restart_at : Map ℕ
  pub fail_backoff : ℕ
  pub last_active_at : Map ℕ
  pub inflight : Map ℕ
  pub next_ch : ℕ
  pub closed_chs : List ℕ

abbrev pub second : ℕ
second = 1_000_000_000

abbrev pub max_startup_backoff : ℕ
max_startup_backoff = 300 * second

abbrev pub default_fail_backoff : ℕ
default_fail_backoff = 30 * second

unfoldable pub new : SchedulingConfig → ℤ → SwitchConfig → Scheduler
new cfg lease sw = record {
  cfg = cfg;
  lease = lease;
  sw = sw;
  switch_target = [];
  switch_mode = [];
  switch_cancel = false;
  preempted = false;
  procs = [];
  expected = [];
  coding_model = [];
  last_coding_at = none;
  started = false;
  fail_count = [];
  next_restart_at = [];
  fail_backoff = default_fail_backoff;
  last_active_at = [];
  inflight = [];
  next_ch = 0;
  closed_chs = [];
}

unfoldable pub set_timings : Scheduler → ℤ → SwitchConfig → Scheduler
set_timings s lease sw = record s { lease = lease; sw = sw }

unfoldable pub pid_alive : Env → ℕ → Bool
pid_alive env pid = if pid == 0 then false else env.kill_zero pid

unfoldable pub resolve_server_pid : Env → ℕ → Option ℕ
resolve_server_pid env port = env.listener port

-- An entry without a readiness address has port 0.
unfoldable pub readiness_port : Env → ProcessConfig → ℕ
readiness_port env e =
    if is_empty e.readiness_url then 0 else or_else 0 (env.host_port e.readiness_url)

unfoldable pub running : Env → Slot → Bool
unfolding pid_alive
running env sl = is_some sl.cmd || (not (sl.server_pid == 0) && pid_alive env sl.server_pid)

-- A set of model IDs, as the Go map from IDs to true.
unfoldable pub add_id : Text → List Text → List Text
add_id id ids = if member id ids then ids else id ∷ ids

unfoldable pub touch_coding : Env → Scheduler → Scheduler
touch_coding env s = record s { last_coding_at = some env.now }

unfoldable pub touch_model : Env → Scheduler → Text → Scheduler
touch_model env s id = record s { last_active_at = insert id env.now s.last_active_at }

unfoldable pub model_enter : Scheduler → Text → Scheduler
model_enter s id = record s {
  inflight = insert id (or_else 0 (lookup id s.inflight) + 1) s.inflight;
}

unfoldable pub model_leave : Scheduler → Text → Scheduler
model_leave s id =
    if ltb 0 (or_else 0 (lookup id s.inflight))
    then record s { inflight = insert id (or_else 0 (lookup id s.inflight) - 1) s.inflight }
    else s

unfoldable pub idle_for_sleep : Env → Scheduler → Text → ℕ → Bool
idle_for_sleep env s id timeout =
    if ltb 0 (or_else 0 (lookup id s.inflight)) then false else elim (lookup id s.last_active_at) [
      | none ↦ false
      | some last ↦ ltb timeout (env.now - last)
    ]

unfoldable pub slot_dead : Env → Scheduler → Text → Bool
unfolding running
slot_dead env s id = elim (lookup id s.procs) [ none ↦ true | some sl ↦ not (running env sl) ]

unfoldable pub coding_slot_ready : Scheduler → Bool
coding_slot_ready s =
    if is_empty s.coding_model
    then false
    else elim (lookup s.coding_model s.procs) [ none ↦ false | some sl ↦ sl.ready_ok ]

unfoldable pub any_coding_running : Env → SchedulingConfig → Map Slot → Bool
any_coding_running env cfg [] = false
any_coding_running env cfg ((id, sl) ∷ m) =
    let rest = any_coding_running env cfg m in
    if not (running env sl)
    then rest
    else elim (entry cfg id) [ none ↦ rest | some e ↦ is_coding e || rest ]

unfoldable pub coding_proc_running : Env → Scheduler → Bool
unfolding any_coding_running running
coding_proc_running env s = any_coding_running env s.cfg s.procs

unfoldable pub is_coding_active : Env → Scheduler → Bool
is_coding_active env s = coding_proc_running env s

unfoldable pub coding_lease_active : Env → Scheduler → Bool
coding_lease_active env s = coding_proc_running env s && elim s.lease [
  | negsuc n ↦ false
  | pos lease ↦
      ltb 0 lease && elim s.last_coding_at [ none ↦ false | some t ↦ ltb (env.now - t) lease ]
]

-- The loop of `recordStartupFailLocked`: `rounds` doublings, stopped at the limit.
unfoldable pub double_backoff : ℕ → ℕ → ℕ
double_backoff zero backoff = backoff
double_backoff (suc rounds) backoff =
    let next = double_backoff rounds (backoff * 2) in
    if ltb backoff max_startup_backoff then next else backoff

unfoldable pub cap_backoff : ℕ → ℕ
cap_backoff b = if ltb max_startup_backoff b then max_startup_backoff else b

-- The state after the failure, and the time before which no restart is allowed, if any.
unfoldable pub record_startup_fail : Env → Scheduler → Text → Scheduler × Option ℕ
record_startup_fail env s id =
    let n = or_else 0 (lookup id s.fail_count) + 1 in
    let counted = record s { fail_count = insert id n s.fail_count } in
    let at = env.now + cap_backoff (double_backoff (n - 2) s.fail_backoff) in
    if leb n 1
    then (counted, none)
    else (record counted { next_restart_at = insert id at s.next_restart_at }, some at)

unfoldable pub clear_startup_fail : Scheduler → Text → Scheduler
clear_startup_fail s id = record s {
  fail_count = delete id s.fail_count;
  next_restart_at = delete id s.next_restart_at;
}

unfoldable pub backoff_active : Env → Scheduler → Text → Bool
backoff_active env s id = elim (lookup id s.next_restart_at) [
  | none ↦ false
  | some nt ↦ ltb env.now nt
]

unfoldable pub clear_switch_inflight : Scheduler → Scheduler
clear_switch_inflight s = record s { switch_target = []; switch_mode = []; switch_cancel = false }

unfoldable pub was_preempted : Scheduler → Bool
was_preempted s = s.preempted

-- `markSlotReady`; `close` of a channel lists it.
unfoldable pub ready_slot : Env → Slot → Slot
ready_slot env sl = record sl {
  last_load_duration = elim sl.load_started_at [
    | none ↦ sl.last_load_duration
    | some t ↦ env.now - t
  ];
  ready_ok = true;
  server_pid =
      if sl.port == 0
      then sl.server_pid
      else or_else sl.server_pid (resolve_server_pid env sl.port);
  ready_ch_closed = true;
}

unfoldable pub mark_slot_ready : Env → Scheduler → Text → Scheduler
unfolding ready_slot resolve_server_pid clear_startup_fail
mark_slot_ready env s id = elim (lookup id s.procs) [
  | none ↦ s
  | some sl ↦ if sl.ready_ok then s else record (clear_startup_fail s id) {
    procs = insert id (ready_slot env sl) s.procs;
    last_active_at =
        if is_some (lookup id s.last_active_at)
        then s.last_active_at
        else insert id env.now s.last_active_at;
    closed_chs = if sl.ready_ch_closed then s.closed_chs else sl.ready_ch ∷ s.closed_chs;
  }
]
