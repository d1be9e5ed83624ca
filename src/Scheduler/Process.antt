-- ===== src/Scheduler/Process.antt =====
-- internal/scheduler/process.go: stopping, suspending and reaping the processes of slots. A function
-- is one critical section of `s.mu`; the signals that it leads to are its list of target pids. Time
-- passes between the sections of one operation, so each takes an `Env` of its own.
use llama_proxy.Prelude.{
  ℕ, ◌+◌, Bool, true, false, not, ◌&&◌, ◌||◌, Option, none, some, List, [], ◌∷◌, ◌++◌, Text, Map,
  lookup, insert, keys, is_empty, is_some, if◌then◌else◌, ltb, ◌==◌, or_else,
}
use llama_proxy.Config.{SchedulingConfig, entry, is_background}
use llama_proxy.Scheduler.{
  Env, Slot, Scheduler, pid_alive, resolve_server_pid, running, record_startup_fail,
  clear_startup_fail,
}

-- `stopAll` leaves alone a background model that is resident or declares no gpu.
unfoldable pub survives : SchedulingConfig → Text → Bool
survives cfg id = elim (entry cfg id) [
  | none ↦ false
  | some e ↦ is_background e && (e.resident || is_empty e.gpu)
]

unfoldable pub kept_slots : SchedulingConfig → Map Slot → Map Slot
kept_slots cfg [] = []
kept_slots cfg ((id, sl) ∷ m) =
    let rest = kept_slots cfg m in if survives cfg id then (id, sl) ∷ rest else rest

unfoldable pub stopped_slots : SchedulingConfig → Map Slot → List Slot
stopped_slots cfg [] = []
stopped_slots cfg ((id, sl) ∷ m) =
    let rest = stopped_slots cfg m in if survives cfg id then rest else sl ∷ rest

-- The critical section of `stopAll`: the slots to stop, and the state without them.
unfoldable pub stop_all : Scheduler → List Slot × Scheduler
stop_all s = (
  stopped_slots s.cfg s.procs,
  record s {
    procs = kept_slots s.cfg s.procs;
    expected = keys (kept_slots s.cfg s.procs);
    coding_model = [];
  },
)

-- The critical section of `stopSlotProcess`: the slot, and the pids that get SIGTERM.
unfoldable pub resolved_slot : Env → Slot → Slot
resolved_slot env sl =
    if sl.port == 0
    then sl
    else record sl { server_pid = or_else sl.server_pid (resolve_server_pid env sl.port) }

unfoldable pub server_target : Env → Slot → List ℕ
server_target env sl =
    if not (sl.server_pid == 0) && (pid_alive env sl.server_pid && not (sl.server_pid == env.self))
    then sl.server_pid ∷ []
    else []

unfoldable pub pid_in : List ℕ → ℕ → Bool
pid_in [] pid = false
pid_in (p ∷ ps) pid = p == pid || pid_in ps pid

unfoldable pub cmd_target : Env → Slot → List ℕ → List ℕ
unfolding pid_in
cmd_target env sl targets = elim sl.cmd [
  | none ↦ targets
  | some pid ↦
      if not (pid == env.self) && not (pid_in targets pid) then targets ++ pid ∷ [] else targets
]

unfoldable pub stop_targets : Env → Slot → List ℕ
unfolding resolved_slot server_target cmd_target resolve_server_pid
stop_targets env sl = cmd_target env sl (server_target env (resolved_slot env sl))

-- The critical section of `Shutdown` (scheduler.go): every slot loses its process references before
-- its processes are stopped.
abbrev pub forgotten : Slot → Slot
forgotten sl = record sl { cmd = none; server_pid = 0 }

unfoldable pub shutdown_slots : Map Slot → List Slot
shutdown_slots [] = []
shutdown_slots ((id, sl) ∷ m) = forgotten sl ∷ shutdown_slots m

-- The pids that `Shutdown` signals, for each slot.
unfoldable pub shutdown_targets : Env → List Slot → List (List ℕ)
shutdown_targets env [] = []
shutdown_targets env (sl ∷ sls) = stop_targets env sl ∷ shutdown_targets env sls

unfoldable pub shutdown : Env → Scheduler → List (List ℕ)
unfolding shutdown_slots shutdown_targets
shutdown env s = shutdown_targets env (shutdown_slots s.procs)

-- `reap`: the shell `pid` of the model has exited.
unfoldable pub reap : Env → Scheduler → Text → ℕ → Scheduler
reap env s id pid = elim (lookup id s.procs) [
  | none ↦ s
  | some sl ↦ elim sl.cmd [
    | none ↦ s
    | some current ↦
        let adopted : Option ℕ = if sl.port == 0 then none else resolve_server_pid env sl.port in
        let taken = λ (server : ℕ). record s {
          procs = insert id (record sl { cmd = none; server_pid = server }) s.procs;
        } in
        let gone = record s {
          procs = insert id (record sl { cmd = none; server_pid = 0; ready_ok = false }) s.procs;
        } in
        if not (current == pid) then s else elim adopted [
          | some server ↦ taken server
          | none ↦ if sl.sleeping then gone else (record_startup_fail env gone id).0
        ]
  ]
]

-- The two critical sections of `suspendSlot`, before and after the processes are stopped.
unfoldable pub suspend_begin : Scheduler → Text → Slot → Scheduler
suspend_begin s id sl = record s {
  procs = insert id (record sl { sleeping = true; ready_ok = false }) s.procs;
}

unfoldable pub suspend_end : Scheduler → Text → Slot → Scheduler
unfolding clear_startup_fail
suspend_end s id sl = record (clear_startup_fail s id) {
  procs =
      insert id
        (record sl {
          cmd = none;
          server_pid = 0;
          log_open = false;
          ready_ch = s.next_ch;
          ready_ch_closed = false;
        })
        s.procs;
  next_ch = s.next_ch + 1;
}

-- The slot as `suspend_end` finds it: other sections may have run in between.
unfoldable pub suspend_slot : Scheduler → Text → Slot → Scheduler
unfolding suspend_begin suspend_end
suspend_slot s id sl =
    suspend_end (suspend_begin s id sl) id (record sl { sleeping = true; ready_ok = false })

-- `sleepMember`.
unfoldable pub may_sleep : Env → Scheduler → Text → Slot → Bool
may_sleep env s id sl =
    running env sl
    && (sl.ready_ok
        && (not sl.sleeping
            && (is_some (entry s.cfg id) && not (ltb 0 (or_else 0 (lookup id s.inflight))))))

unfoldable pub sleep_member : Env → Scheduler → Text → Scheduler
unfolding may_sleep suspend_slot
sleep_member env s id = elim (lookup id s.procs) [
  | none ↦ s
  | some sl ↦ if may_sleep env s id sl then suspend_slot s id sl else s
]
