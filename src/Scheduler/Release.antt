-- ===== src/Scheduler/Release.antt =====
-- A reconcile round releases the requests that wait for a model (internal/scheduler/reconcile.go).
use llama_proxy.Prelude.{
  ℕ, ◌≡◌, ◌≢◌, refl, ◌⊎◌, subst, sym, inl, inr, true, false, none, some, ◌∷◌, arith, Text, In,
  lookup, lookup-insert, eq_text_refl, is_empty, is_some, Option-cases,
}
use llama_proxy.Config.{ProcessConfig, entry}
use llama_proxy.Scheduler.{Env, Slot, Scheduler, resolve_server_pid, mark_slot_ready, ready_slot}
use llama_proxy.Scheduler.Recovery.{reconcile_item, reconcile_unready, with_server}

-- A slot that waits for its readiness probe: its shell runs, or a process listens on its port.
pub record IsLoading (env : Env) (s : Scheduler) (id : Text) (sl : Slot) : Type 0 where
  pub config : ProcessConfig
  pub entered : lookup id s.procs ≡ some sl
  pub configured : entry s.cfg id ≡ some config
  pub awake : sl.sleeping ≡ false
  pub unready : sl.ready_ok ≡ false
  pub probed : is_empty config.readiness_url ≡ false
  pub alive :
      (is_some sl.cmd ≡ true) ⊎ ((sl.port ≢ 0) × (is_some (resolve_server_pid env sl.port) ≡ true))

-- The slot is ready and its channel is closed.
pub record IsReleased (s : Scheduler) (id : Text) (ch : ℕ) : Type 0 where
  pub slot : Slot
  pub entered : lookup id s.procs ≡ some slot
  pub ready : slot.ready_ok ≡ true
  pub released : In ch s.closed_chs

mark_slot_ready-IsReleased :
    (env : Env) (s : Scheduler) (id : Text) (sl : Slot)
    → lookup id s.procs ≡ some sl
    → sl.ready_ok ≡ false
    → sl.ready_ch_closed ≡ false
    → IsReleased (mark_slot_ready env s id) id sl.ready_ch
unfolding mark_slot_ready
mark_slot_ready-IsReleased env s id sl found unready waits = record {
  slot = ready_slot env sl;
  entered =
      ground
        (arith, found, unready, lookup-insert id id (ready_slot env sl) s.procs, eq_text_refl id);
  ready = unfold ready_slot in refl;
  released =
      let e : (mark_slot_ready env s id).closed_chs ≡ sl.ready_ch ∷ s.closed_chs =
        ground (arith, found, unready, waits) in
      subst (In sl.ready_ch) (sym e) (inl refl);
}

-- The round marks the slot, or the slot with the process that listens on its port.
with_shell :
    (env : Env) (s : Scheduler) (id : Text) (sl : Slot) (pid : ℕ)
    → IsLoading env s id sl
    → sl.cmd ≡ some pid
    → reconcile_item env s id true ≡ mark_slot_ready env s id
unfolding reconcile_item reconcile_unready
with_shell env s id sl pid k shell =
    ground (arith, shell, k.entered, k.configured, k.awake, k.unready, k.probed)

with_listener :
    (env : Env) (s : Scheduler) (id : Text) (sl : Slot) (pid : ℕ)
    → IsLoading env s id sl
    → sl.cmd ≡ none
    → sl.port ≢ 0
    → resolve_server_pid env sl.port ≡ some pid
    → reconcile_item env s id true ≡ mark_slot_ready env (with_server s id sl pid) id
unfolding reconcile_item reconcile_unready
with_listener env s id sl pid k gone port listens =
    ground (arith, gone, port, listens, k.entered, k.configured, k.awake, k.unready, k.probed)

-- When a round reaches a model whose slot is awake and not ready, while its shell runs or a process listens on its
-- port, and the readiness probe succeeds, the slot is ready and the channel that requests wait on is
-- closed.
pub reconcile_item-IsReleased :
    (env : Env) (s : Scheduler) (id : Text) (sl : Slot)
    → IsLoading env s id sl
    → sl.ready_ch_closed ≡ false
    → IsReleased (reconcile_item env s id true) id sl.ready_ch
reconcile_item-IsReleased env s id sl k waits = elim (Option-cases sl.cmd) [
  | inr (pid, shell) ↦
      subst (λ t. IsReleased t id sl.ready_ch) (sym (with_shell env s id sl pid k shell))
        (mark_slot_ready-IsReleased env s id sl k.entered k.unready waits)
  | inl gone ↦ elim k.alive [
    | inl shell ↦ ground (arith, gone, shell)
    | inr (port, listens) ↦ elim (Option-cases (resolve_server_pid env sl.port)) [
      | inl silent ↦ ground (arith, silent, listens)
      | inr (pid, server) ↦
          subst (λ t. IsReleased t id sl.ready_ch)
            (sym (with_listener env s id sl pid k gone port server))
            (mark_slot_ready-IsReleased env (with_server s id sl pid) id
              (record sl { server_pid = pid })
              (ground (
                arith,
                lookup-insert id id (record sl { server_pid = pid }) s.procs,
                eq_text_refl id,
              ))
              k.unready waits)
    ]
  ]
]
