-- ===== src/Scheduler/Adoption.antt =====
-- The port decides which process a slot adopts (internal/scheduler/reconcile.go), although models of
-- one gpu may share a port.
use llama_proxy.Prelude.{
  ℕ, ◌<◌, ◌≡◌, ◌≢◌, refl, ap, ◌∙◌, true, false, none, some, arith, Text, lookup, insert,
  lookup-insert, eq_text_iff, eq_text_refl, is_empty, ◌==◌,
}
use llama_proxy.Config.{ProcessConfig, entry}
use llama_proxy.Scheduler.{
  Env, Slot, Scheduler, running, pid_alive, resolve_server_pid, mark_slot_ready, ready_slot,
}
use llama_proxy.Scheduler.Recovery.{reconcile_item, reconcile_unready, with_server}
use llama_proxy.Scheduler.Exclusive.{Holds, IsExclusive}

-- A crashed slot, and another one of its gpu whose server, which runs, listens on the port of the crashed one.
pub record IsShadowed (env : Env) (s : Scheduler) (i j : Text) : Type 0 where
  pub crashed : Slot
  pub config : ProcessConfig
  pub entered : lookup i s.procs ≡ some crashed
  pub configured : entry s.cfg i ≡ some config
  pub other : i ≢ j
  pub shell_gone : crashed.cmd ≡ none
  pub awake : crashed.sleeping ≡ false
  pub unready : crashed.ready_ok ≡ false
  pub probed : is_empty config.readiness_url ≡ false
  pub has_port : 0 < crashed.port
  pub server : ℕ
  pub listens : env.listener crashed.port ≡ some server
  pub server_alive : pid_alive env server ≡ true
  pub on_gpu : is_empty config.gpu ≡ false
  pub holder : Holds env s.cfg s.procs j config.gpu
  pub served_by : holder.slot.server_pid ≡ server

==-zero : (n : ℕ) → 0 < n → (n == 0) ≡ false
==-zero n pos = ground arith

-- The slot that `markSlotReady` leaves.
mark_slot_ready-procs :
    (env : Env) (s : Scheduler) (id : Text) (sl : Slot) (pid : ℕ)
    → lookup id s.procs ≡ some sl
    → sl.ready_ok ≡ false
    → 0 < sl.port
    → env.listener sl.port ≡ some pid
    → (x : Slot) × ((mark_slot_ready env s id).procs ≡ insert id x s.procs)
      × (x.server_pid ≡ pid)
      × (x.ready_ok ≡ true)
unfolding mark_slot_ready
mark_slot_ready-procs env s id sl pid found unready port listens =
    (ready_slot env sl, ground arith, ground arith, unfold ready_slot in refl)

served :
    (env : Env) (x : Slot) (pid : ℕ)
    → x.server_pid ≡ pid
    → pid_alive env pid ≡ true
    → running env x ≡ true
unfolding running pid_alive
served env x pid same up = ground arith

adopts :
    (env : Env) (s : Scheduler) (i j : Text)
    → (h : IsShadowed env s i j)
    → reconcile_item env s i true ≡ mark_slot_ready env (with_server s i h.crashed h.server) i
unfolding reconcile_item reconcile_unready resolve_server_pid
adopts env s i j h = ground (
  arith, h.entered, h.configured, h.awake, h.unready, h.probed, h.shell_gone, h.has_port, h.listens,
)

adopted_procs :
    (env : Env) (s : Scheduler) (i j : Text)
    → (h : IsShadowed env s i j)
    → (x : Slot) × ((reconcile_item env s i true).procs
        ≡ insert i x (insert i (record h.crashed { server_pid = h.server }) s.procs))
      × (running env x ≡ true)
      × (x.server_pid ≡ h.server)
      × (x.ready_ok ≡ true)
adopted_procs env s i j h =
    let y = record h.crashed { server_pid = h.server } in
    let (x, procs_eq, same, ready) =
      mark_slot_ready-procs env (with_server s i h.crashed h.server) i y h.server
        (ground (arith, lookup-insert i i y s.procs, eq_text_refl i)) h.unready h.has_port
        h.listens in
    (
      x,
      ap (λ t. t.procs) (adopts env s i j h) ∙ procs_eq,
      served env x h.server same h.server_alive,
      same,
      ready,
    )

-- Both slots are entered with one process, which runs, and the first is marked ready.
pub record ShareProcess (env : Env) (s : Scheduler) (i j : Text) (pid : ℕ) : Type 0 where
  pub first : Slot
  pub second : Slot
  pub first_entered : lookup i s.procs ≡ some first
  pub second_entered : lookup j s.procs ≡ some second
  pub first_pid : first.server_pid ≡ pid
  pub second_pid : second.server_pid ≡ pid
  pub first_runs : running env first ≡ true
  pub second_runs : running env second ≡ true
  pub first_ready : first.ready_ok ≡ true

-- If the server of another model of the same gpu, which runs, listens on the port of a crashed, awake, unready slot,
-- then when a round of `reconcile` reaches that slot and its probe succeeds, the crashed model adopts the other model's
-- server: both slots have that process, and the crashed model is marked ready, so that two running slots declare the
-- gpu.
pub reconcile_item_adopts :
    (env : Env) (s : Scheduler) (i j : Text)
    → (h : IsShadowed env s i j)
    → let t = reconcile_item env s i true in
      ShareProcess env t i j h.server × (¬ IsExclusive env s.cfg t.procs)
reconcile_item_adopts env s i j h =
    let y = record h.crashed { server_pid = h.server } in
    let (x, procs_eq, up, pid, ready) = adopted_procs env s i j h in
    let at_i : lookup i (insert i x (insert i y s.procs)) ≡ some x =
      ground (arith, lookup-insert i i x (insert i y s.procs), eq_text_refl i) in
    let at_j : lookup j (insert i x (insert i y s.procs)) ≡ some h.holder.slot = ground (
      arith,
      lookup-insert i j x (insert i y s.procs),
      lookup-insert i j y s.procs,
      eq_text_iff i j,
      h.other,
      h.holder.entered,
    ) in
    let there_i = ap (lookup i) procs_eq ∙ at_i in
    let there_j = ap (lookup j) procs_eq ∙ at_j in
    (
      record {
        first = x;
        second = h.holder.slot;
        first_entered = there_i;
        second_entered = there_j;
        first_pid = pid;
        second_pid = h.served_by;
        first_runs = up;
        second_runs = h.holder.runs;
        first_ready = ready;
      },
      λ exclusive. h.other (
          exclusive i j h.config.gpu h.on_gpu
            (record {
              slot = x;
              config = h.config;
              entered = there_i;
              runs = up;
              configured = h.configured;
              declares = refl;
            })
            (record {
              slot = h.holder.slot;
              config = h.holder.config;
              entered = there_j;
              runs = h.holder.runs;
              configured = h.holder.configured;
              declares = h.holder.declares;
            })),
    )
