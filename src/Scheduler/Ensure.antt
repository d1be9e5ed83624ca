-- ===== src/Scheduler/Ensure.antt =====
-- internal/scheduler/scheduler.go: `EnsureModel` with the switches that it makes, and the case in which
-- it hands out a channel that is never closed. `results` are the results of the readiness waits of
-- a switch, and `ready` tells whether the wait of an on-demand start succeeds; other sections of
-- the scheduler do not run in between.
use llama_proxy.Prelude.{
  ◌≡◌, Bool, true, false, not, ◌&&◌, none, some, List, [], ◌∷◌, arith, Text, In, lookup, is_empty,
  is_some, if◌then◌else◌, In→member,
}
use llama_proxy.Config.{
  ProcessConfig, entry, is_coding, mode_coding, mode_background, default_background_group,
}
use llama_proxy.Scheduler.{Env, Scheduler, running, coding_lease_active}
use llama_proxy.Scheduler.Process.{stop_all}
use llama_proxy.Scheduler.Arbitration.{
  alone, done, fail, wait_on, refused, start, ensure_check, start_on_demand, finish_on_demand,
  restart_member,
}
use llama_proxy.Scheduler.Switching.{
  Wait, begin_switch, finish_switch, preempt_lower_priority, wait_for, skip_switch, restart,
  on_demand, switch_group, switch_coding, ensure_coding, ensure_background,
}

-- The state after the call, and the channel that the caller waits on: `of_slot` for a
-- channel of a slot, `never` for a new channel that no slot has, `errors` where the call fails.
pub data Channel : Type 0 where
  of_slot : Channel
  never : Channel
  errors : Channel

unfoldable pub is_running : Env → Scheduler → Text → Bool
is_running env s id = elim (lookup id s.procs) [ none ↦ false | some sl ↦ running env sl ]

-- A sleeping member that survives the stop is not started and gets no channel.
unfoldable pub left_asleep : Env → Scheduler → Text → Bool
left_asleep env s id = elim (lookup id (stop_all s).1.procs) [
  | none ↦ false
  | some sl ↦ not (running env sl) && sl.sleeping
]

-- `switchTo` with its waits, for the channel of `id`; an error of a wait is an error of the call.
unfoldable pub switch_to :
    Env → List (Text × Wait) → Scheduler → List Text → Text → Text → Scheduler × Channel
unfolding left_asleep
switch_to env results s ids mode id =
    let r = finish_switch env (begin_switch (alone env) s ids mode) results in
    (r.0, if is_some r.1 then errors else if left_asleep env s id then never else of_slot)

unfoldable pub ensure_coding_model :
    Env → List (Text × Wait) → Scheduler → Text → Scheduler × Channel
unfolding is_running switch_to
ensure_coding_model env results s id = elim (ensure_coding env s id) [
  | wait_for ch ↦ (s, of_slot)
  | switch_coding ↦
      let p = (preempt_lower_priority s mode_coding id).0 in
      if is_running env p id then (p, of_slot) else switch_to env results p (id ∷ []) mode_coding id
  | _ ↦ (s, errors)
]

unfoldable pub ensure_on_demand : Env → Bool → Scheduler → Text → Scheduler × Channel
unfolding is_running
ensure_on_demand env ready s id = elim (ensure_check env s id) [
  | wait_on ch ↦ (s, of_slot)
  | refused x ↦ (s, errors)
  | start ↦
      let p = (preempt_lower_priority s mode_background id).0 in
      if is_running env p id then (p, of_slot) else elim (start_on_demand (alone env) p id) [
        | fail x ↦ (p, errors)
        | done r ↦ (finish_on_demand env r.0 id ready, if ready then of_slot else errors)
      ]
]

unfoldable pub ensure_background_model :
    Env → List (Text × Wait) → Bool → Scheduler → Text → Scheduler × Channel
unfolding is_running switch_to ensure_on_demand
ensure_background_model env results ready s id = elim (ensure_background env s id) [
  | wait_for ch ↦ (s, of_slot)
  | skip_switch ↦ (s, never)
  | restart ↦ (restart_member env s id, of_slot)
  | on_demand ↦ ensure_on_demand env ready s id
  | switch_group ↦
      if is_empty s.coding_model && is_running env s id
      then (s, of_slot)
      else switch_to env results s (default_background_group s.cfg) mode_background id
  | _ ↦ (s, errors)
]

unfoldable pub ensure_model :
    Env → List (Text × Wait) → Bool → Scheduler → Text → Scheduler × Channel
unfolding ensure_coding_model ensure_background_model
ensure_model env results ready s id = elim (entry s.cfg id) [
  | none ↦ (s, errors)
  | some e ↦
      if is_coding e
      then ensure_coding_model env results s id
      else ensure_background_model env results ready s id
]

-- While a coding model holds its lease, a request for a start-set model that is not resident waits on
-- a channel that nothing closes, also if the model runs and is ready, as one without a gpu does.
pub ensure_model-never :
    (env : Env) (results : List (Text × Wait)) (ready : Bool) (s : Scheduler) (id : Text)
    (e : ProcessConfig)
    → entry s.cfg id ≡ some e
    → is_coding e ≡ false
    → e.resident ≡ false
    → In id (default_background_group s.cfg)
    → is_empty s.coding_model ≡ false
    → coding_lease_active env s ≡ true
    → ensure_model env results ready s id ≡ (s, never)
unfolding ensure_model ensure_background_model ensure_background
ensure_model-never env results ready s id e known background shared listed coding lease = ground (
  arith,
  known,
  background,
  shared,
  In→member id (default_background_group s.cfg) listed,
  coding,
  lease,
)
