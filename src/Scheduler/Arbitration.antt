-- ===== src/Scheduler/Arbitration.antt =====
-- internal/scheduler: `acquireGPU`, `launchSlot`, `ensureOnDemandBackground` (scheduler.go,
-- switching.go) and `restartMember` (reconcile.go) up to the start of the process. The caller holds
-- `switchMu`, which not every switch takes: the operations of several sections have a `Course`, which tells
-- what other goroutines do before each section. The suspension of an owner belongs to the section of
-- `acquireGPU`, and the waits (draining, the release of gpu memory, freeing the port) are the time
-- between two sections.
use llama_proxy.Prelude.{
  ℕ, ◌+◌, Bool, true, false, not, ◌&&◌, ◌||◌, Option, none, some, List, [], ◌∷◌, Text, Map, keys,
  lookup, insert, member, eq_text, is_empty, if◌then◌else◌, or_else, ◌==◌,
}
use llama_proxy.Config.{ProcessConfig, SchedulingConfig, entry, is_background, mode_background}
use llama_proxy.Scheduler.{
  Env, Slot, Scheduler, running, add_id, readiness_port, backoff_active, mark_slot_ready,
  clear_switch_inflight,
}
use llama_proxy.Scheduler.Process.{suspend_slot}

-- What happens before the n-th section of an operation: what the system answers then, and what the
-- sections of other goroutines make of the scheduler.
pub record Course : Type 0 where
  pub env : ℕ → Env
  pub others : ℕ → Scheduler → Scheduler

-- No other goroutine runs.
abbrev pub alone : Env → Course
alone env = record { env = λ n. env; others = λ n s. s }

-- The search for another running model on the gpu, over the keys of `procs`.
unfoldable pub find_owner :
    Env → SchedulingConfig → Map Slot → Text → Text → List Text → Option (Text × Slot)
find_owner env cfg procs id gpu [] = none
find_owner env cfg procs id gpu (oid ∷ oids) =
    let rest = find_owner env cfg procs id gpu oids in
    elim (lookup oid procs) [
      | none ↦ rest
      | some sl ↦ if eq_text oid id || not (running env sl) then rest else elim (entry cfg oid) [
        | none ↦ rest
        | some oe ↦ if eq_text oe.gpu gpu then some (oid, sl) else rest
      ]
    ]

pub data SchedError : Type 0 where
  not_configured : Text → SchedError
  failed_to_start : Text → ℕ → ℕ → SchedError
  gpu_held : Text → Text → Text → SchedError
  not_ready : Text → SchedError

pub data Outcome {ℓ} (A : Type ℓ) : Type ℓ where
  done : A → Outcome A
  fail : SchedError → Outcome A

abbrev pub is_resident : SchedulingConfig → Text → Bool
is_resident cfg id = elim (entry cfg id) [ none ↦ false | some e ↦ e.resident ]

-- The state in which the caller may start the model.
unfoldable pub acquire_gpu : Env → Scheduler → Text → Outcome Scheduler
acquire_gpu env s id = elim (entry s.cfg id) [
  | none ↦ done s
  | some e ↦
      if is_empty e.gpu
      then done s
      else elim (find_owner env s.cfg s.procs id e.gpu (keys s.procs)) [
        | none ↦ done s
        | some (owner, sl) ↦
            if is_resident s.cfg owner
            then fail (gpu_held e.gpu owner id)
            else done (suspend_slot s owner sl)
      ]
]

abbrev pub empty_slot : ℕ → Slot
empty_slot ch = record {
  cmd = none;
  port = 0;
  server_pid = 0;
  log_open = false;
  ready_ok = false;
  ready_ch = ch;
  ready_ch_closed = false;
  sleeping = false;
  load_started_at = none;
  last_load_duration = 0;
}

-- The slot that `launchSlot` enters.
unfoldable pub launched : Env → Scheduler → Text → Slot
launched env s id = elim (entry s.cfg id) [
  | none ↦ empty_slot s.next_ch
  | some e ↦
      let opened = record (empty_slot s.next_ch) {
        port = readiness_port env e;
        log_open = env.open_log e.log_file;
      } in
      if is_empty e.command
      then opened
      else record opened { load_started_at = some env.now; cmd = env.spawn id }
]

unfoldable pub launch_slot : Env → Scheduler → Text → Scheduler
unfolding launched
launch_slot env s id = record s {
  procs = insert id (launched env s id) s.procs;
  expected = add_id id s.expected;
  next_ch = s.next_ch + 1;
}

-- The first part of `ensureOnDemandBackground`: a running slot answers its ready channel; within
-- the backoff window the request fails.
pub data Ensured : Type 0 where
  wait_on : ℕ → Ensured
  refused : SchedError → Ensured
  start : Ensured

unfoldable pub ensure_check : Env → Scheduler → Text → Ensured
ensure_check env s id =
    let starting : Ensured =
      if backoff_active env s id
      then refused (
          failed_to_start id (or_else 0 (lookup id s.fail_count))
            (or_else 0 (lookup id s.next_restart_at)))
      else start in
    elim (lookup id s.procs) [
      | none ↦ starting
      | some sl ↦ if running env sl then wait_on sl.ready_ch else starting
    ]

-- The registration of the switch that starts one model.
unfoldable pub register_start : Scheduler → Text → Scheduler
register_start s id = record s {
  switch_target = id;
  switch_mode = mode_background;
  switch_cancel = true;
}

-- Under `switchMu`, in four sections: look again, arbitrate, launch, and register the switch.
unfoldable pub start_on_demand : Course → Scheduler → Text → Outcome (Scheduler × ℕ)
unfolding launch_slot register_start
start_on_demand course s id =
    let starting : Outcome (Scheduler × ℕ) =
      elim (acquire_gpu (course.env 1) (course.others 1 s) id) [
        | fail x ↦ fail x
        | done free ↦
            let before = course.others 2 free in
            done (
              register_start (course.others 3 (launch_slot (course.env 2) before id)) id,
              before.next_ch,
            )
      ] in
    elim (lookup id s.procs) [
      | none ↦ starting
      | some sl ↦ if running (course.env 0) sl then done (s, sl.ready_ch) else starting
    ]

-- `restartMember` up to the registration of the new process.
unfoldable pub needs_restart : Env → Scheduler → Text → Slot → ProcessConfig → Bool
needs_restart env s id sl e =
    not (running env sl)
    && (is_background e
        && (member id s.expected && (not (is_empty e.command) && not (backoff_active env s id))))

unfoldable pub restarted : Env → Slot → ProcessConfig → ℕ → Slot
restarted env sl e pid = record sl {
  port = if sl.port == 0 then readiness_port env e else sl.port;
  cmd = some pid;
  ready_ok = false;
  load_started_at = some env.now;
  sleeping = false;
  log_open = env.open_log e.log_file;
}

unfoldable pub restart_member : Env → Scheduler → Text → Scheduler
unfolding restarted
restart_member env s id = elim (lookup id s.procs) [
  | none ↦ s
  | some sl ↦ elim (entry s.cfg id) [
    | none ↦ s
    | some e ↦
        let closed = record sl { log_open = false } in
        let silent = record s { procs = insert id closed s.procs } in
        if not (needs_restart env s id sl e) then s else elim (acquire_gpu env silent id) [
          | fail x ↦ silent
          | done free ↦ elim (env.spawn id) [
            | none ↦ free
            | some pid ↦ record free { procs = insert id (restarted env closed e pid) free.procs }
          ]
        ]
  ]
]

-- The end of `ensureOnDemandBackground`: the model is ready, or its wait failed.
unfoldable pub finish_on_demand : Env → Scheduler → Text → Bool → Scheduler
finish_on_demand env s id ready =
    clear_switch_inflight (if ready then mark_slot_ready env s id else s)
