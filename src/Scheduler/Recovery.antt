-- ===== src/Scheduler/Recovery.antt =====
-- internal/scheduler/reconcile.go: one round of `reconcile`. `probe` tells whether the readiness
-- probe of a model succeeds; the order of `ids` is the order of the snapshot.
use llama_proxy.Prelude.{
  ℕ, Bool, false, not, ◌&&◌, Option, none, some, List, [], ◌∷◌, Text, lookup, insert, keys,
  is_empty, if◌then◌else◌, ltb, ◌==◌, length, eq_text,
}
use llama_proxy.Config.{
  ProcessConfig, entry, is_background, default_background_group, mode_coding, mode_background,
}
use llama_proxy.Scheduler.{
  Env, Slot, Scheduler, running, resolve_server_pid, mark_slot_ready, idle_for_sleep,
}
use llama_proxy.Scheduler.Process.{sleep_member}
use llama_proxy.Scheduler.Arbitration.{Course, restart_member}
use llama_proxy.Scheduler.Switching.{begin_switch}

-- The coding process has exited before it was ever ready.
unfoldable pub dead_never_ready : Env → Scheduler → Bool
dead_never_ready env s = not (is_empty s.coding_model) && elim (lookup s.coding_model s.procs) [
  | none ↦ false
  | some sl ↦ not (running env sl) && not sl.ready_ch_closed
]

unfoldable pub coding_switch_in_flight : Scheduler → Bool
coding_switch_in_flight s = s.switch_cancel && eq_text s.switch_mode mode_coding

abbrev pub with_server : Scheduler → Text → Slot → ℕ → Scheduler
with_server s id sl pid = record s { procs = insert id (record sl { server_pid = pid }) s.procs }

-- A member that is neither asleep nor ready, and has a readiness address.
unfoldable pub reconcile_unready : Env → Scheduler → Text → Slot → ProcessConfig → Bool → Scheduler
reconcile_unready env s id sl e probe =
    let probed = λ (t : Scheduler). if probe then mark_slot_ready env t id else t in
    let listener : Option ℕ = if sl.port == 0 then none else resolve_server_pid env sl.port in
    elim sl.cmd [
      | some pid ↦ probed s
      | none ↦ elim listener [
        | some pid ↦ probed (with_server s id sl pid)
        | none ↦
            let cleared = with_server s id sl 0 in
            if is_background e then restart_member env cleared id else cleared
      ]
    ]

unfoldable pub reconcile_item : Env → Scheduler → Text → Bool → Scheduler
reconcile_item env s id probe = elim (lookup id s.procs) [
  | none ↦ s
  | some sl ↦ elim (entry s.cfg id) [
    | none ↦ s
    | some e ↦
        if sl.sleeping
        then s
        else if sl.ready_ok
        then (if is_background e
              && (ltb 0 e.sleep_timeout && idle_for_sleep env s id e.sleep_timeout)
            then sleep_member env s id
            else s)
        else if is_empty e.readiness_url
        then s
        else reconcile_unready env s id sl e probe
  ]
]

unfoldable pub reconcile_items : Env → (Text → Bool) → Scheduler → List Text → Scheduler
reconcile_items env probe s [] = s
reconcile_items env probe s (id ∷ ids) =
    reconcile_items env probe (reconcile_item env s id (probe id)) ids

-- The state after the round; a switch back to the start set goes on with its waits. Here `switchMu` is not
-- taken. The sections of other goroutines run during that switch only.
unfoldable pub reconcile : Course → (Text → Bool) → Scheduler → Scheduler
unfolding dead_never_ready coding_switch_in_flight reconcile_items
reconcile course probe s =
    let env = course.env 0 in
    let group = default_background_group s.cfg in
    if dead_never_ready env s && not (coding_switch_in_flight s)
    then (if ltb 0 (length group)
        then begin_switch course s group mode_background
        else record s { coding_model = [] })
    else reconcile_items env probe s (keys s.procs)
