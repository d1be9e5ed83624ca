-- ===== src/Scheduler/Switching.antt =====
-- internal/scheduler/switching.go: `switchTo`, `preemptLowerPriority`; and the switches that
-- `Start`, `ensureCoding`, `ensureBackground` and the lease branch of `Loop` decide on. `switchTo`
-- is four parts: stop, launch, register, and the results of the readiness waits in the order in
-- which they arrive. An empty list of targets is given by no caller.
use llama_proxy.Prelude.{
  pos, negsuc, suc, ℕ, ◌-◌, Bool, true, false, not, ◌&&◌, ◌||◌, Option, none, some, List, [], ◌∷◌,
  Text, codes, lookup, member, eq_text, is_empty, if◌then◌else◌, or_else, ltb, leb, length,
}
use llama_proxy.Config.{entry, mode_coding, mode_background, default_background_group}
use llama_proxy.Scheduler.{
  Env, Scheduler, running, add_id, mark_slot_ready, clear_switch_inflight, coding_lease_active,
  coding_slot_ready, backoff_active,
}
use llama_proxy.Scheduler.Process.{stop_all}
use llama_proxy.Scheduler.Arbitration.{Course, launch_slot, SchedError, failed_to_start}

-- One round of the launch loop: a running slot is reused, a sleeping one is left asleep. The n-th section
-- of the switch looks at the slot, the next one enters it.
unfoldable pub launch_one : Course → ℕ → Scheduler → Text → Scheduler
launch_one course n s id =
    let later = course.others (suc n) s in
    let launching = launch_slot (course.env (suc n)) later id in
    let registered = record later { expected = add_id id later.expected } in
    elim (entry s.cfg id) [
      | none ↦ s
      | some e ↦ elim (lookup id s.procs) [
        | none ↦ launching
        | some sl ↦
            if running (course.env n) sl
            then registered
            else if sl.sleeping
            then registered
            else launching
      ]
    ]

-- The loop from the n-th section on, and the section that follows it.
unfoldable pub launch_all : Course → ℕ → Scheduler → List Text → Env × Scheduler
launch_all course n s [] = (course.env n, course.others n s)
launch_all course n s (id ∷ ids) =
    launch_all course (suc (suc n)) (launch_one course n (course.others n s) id) ids

-- The members to wait for: all but the sleeping ones.
unfoldable pub to_wait : Env → Scheduler → List Text → List Text
to_wait env s [] = []
to_wait env s (id ∷ ids) =
    let rest = to_wait env s ids in
    elim (lookup id s.procs) [
      | none ↦ id ∷ rest
      | some sl ↦ if not (running env sl) && sl.sleeping then rest else id ∷ rest
    ]

abbrev pub head_or_empty : List Text → Text
head_or_empty [] = []
head_or_empty (id ∷ ids) = id

unfoldable pub describe_target : Text → List Text → Text
describe_target mode ids = if eq_text mode mode_coding then head_or_empty ids else codes "group"

unfoldable pub add_ids : List Text → List Text → List Text
add_ids [] expected = expected
add_ids (id ∷ ids) expected = add_ids ids (add_id id expected)

-- The registration after the launches.
unfoldable pub register_switch : Env → Scheduler → List Text → Text → Scheduler
unfolding describe_target add_ids
register_switch env s ids mode = record s {
  expected = add_ids ids s.expected;
  coding_model = if eq_text mode mode_coding then head_or_empty ids else [];
  last_coding_at = if eq_text mode mode_coding then some env.now else s.last_coding_at;
  switch_target = describe_target mode ids;
  switch_mode = mode;
  switch_cancel = true;
}

-- `switchTo` up to its waits: stop, launch each member, register.
unfoldable pub begin_switch : Course → Scheduler → List Text → Text → Scheduler
unfolding launch_all register_switch stop_all
begin_switch course s ids mode =
    let last = launch_all course 1 (stop_all s).1 ids in register_switch last.0 last.1 ids mode

-- What a readiness wait ends with.
pub data Wait : Type 0 where
  ready : Wait
  canceled : Wait
  timed_out : Wait
  exited : Wait

pub data SwitchError : Type 0 where
  switch_preempted : Text → SwitchError
  probe_failed : Text → Wait → SwitchError

abbrev wait_error : Scheduler → Text → Wait → SwitchError
wait_error s id canceled = if s.preempted then switch_preempted id else probe_failed id canceled
wait_error s id w = probe_failed id w

-- The loop over the results: only the first error is kept.
unfoldable pub collect :
    Env → Scheduler → Option SwitchError → List (Text × Wait) → Scheduler × Option SwitchError
collect env s error [] = (s, error)
collect env s error ((id, ready) ∷ rs) = collect env (mark_slot_ready env s id) error rs
collect env s error ((id, w) ∷ rs) = collect env s (some (or_else (wait_error s id w) error)) rs

unfoldable pub finish_switch : Env → Scheduler → List (Text × Wait) → Scheduler × Option SwitchError
unfolding collect clear_switch_inflight
finish_switch env s results = let r = collect env s none results in (clear_switch_inflight r.0, r.1)

unfoldable pub switch_priority : Text → ℕ
switch_priority mode =
    if eq_text mode mode_coding then 2 else if eq_text mode mode_background then 1 else 0

-- Whether a request preempts the switch in flight.
unfoldable pub preempts : Scheduler → Text → Text → Bool
unfolding switch_priority
preempts s mode target =
    s.switch_cancel
    && (ltb (switch_priority s.switch_mode) (switch_priority mode)
        || (eq_text mode mode_coding
            && (eq_text s.switch_mode mode_coding
                && (not (is_empty target) && not (eq_text target s.switch_target)))))

-- The state after `preemptLowerPriority`, and whether it cancels the switch in flight.
unfoldable pub preempt_lower_priority : Scheduler → Text → Text → Scheduler × Bool
unfolding preempts
preempt_lower_priority s mode target =
    if preempts s mode target then (record s { preempted = true }, true) else (s, false)

-- The first section of `ensureCoding`, before it preempts and switches.
pub data Decision : Type 0 where
  wait_for : ℕ → Decision
  backoff_error : SchedError → Decision
  skip_switch : Decision
  restart : Decision
  on_demand : Decision
  switch_group : Decision
  switch_coding : Decision

unfoldable pub ensure_coding : Env → Scheduler → Text → Decision
ensure_coding env s id =
    let starting : Decision =
      if backoff_active env s id
      then backoff_error (
          failed_to_start id (or_else 0 (lookup id s.fail_count))
            (or_else 0 (lookup id s.next_restart_at)))
      else switch_coding in
    elim (lookup id s.procs) [
      | none ↦ starting
      | some sl ↦ if running env sl then wait_for sl.ready_ch else starting
    ]

-- `ensureBackground` up to `switchMu`; `restart` restarts the member and waits on its channel.
unfoldable pub ensure_background : Env → Scheduler → Text → Decision
ensure_background env s id =
    let coding = not (is_empty s.coding_model) in
    let resident : Bool = elim (entry s.cfg id) [ none ↦ false | some e ↦ e.resident ] in
    let switching : Decision =
      if coding && coding_lease_active env s then skip_switch else switch_group in
    if not (member id (default_background_group s.cfg))
    then on_demand
    else elim (lookup id s.procs) [
      | none ↦ switching
      | some sl ↦
          if resident || not coding
          then (if running env sl then wait_for sl.ready_ch else restart)
          else switching
    ]

-- The lease branch of `Loop`: whether it switches back to the background group.
unfoldable pub lease_expired : Env → Scheduler → Bool
lease_expired env s = elim s.lease [
  | negsuc n ↦ false
  | pos lease ↦
      ltb 0 lease && elim s.last_coding_at [ none ↦ false | some t ↦ leb lease (env.now - t) ]
]

unfoldable pub fresh_load : Scheduler → Bool
fresh_load s = s.switch_cancel && (eq_text s.switch_mode mode_coding && not (coding_slot_ready s))

unfoldable pub switches_back : Env → Scheduler → Bool
unfolding lease_expired fresh_load
switches_back env s =
    not (is_empty s.coding_model)
    && (lease_expired env s
        && (not (fresh_load s) && ltb 0 (length (default_background_group s.cfg))))
