-- ===== src/Scheduler/Steps.antt =====
-- The critical sections of the scheduler as steps (internal/scheduler), in any order: what holds of
-- the ready channels in every state that they reach.
use llama_proxy.Prelude.{
  ℤ, ℕ, ◌≡◌, refl, sym, ap, inl, inr, Bool, true, false, none, some, [], ◌∷◌, arith, Text, Map,
  lookup, insert, eq_text_iff, Bool-cases, Option-cases, if◌then◌else◌, ◌==◌,
}
use llama_proxy.Config.{ProcessConfig, SchedulingConfig, SwitchConfig}
use llama_proxy.Scheduler.{
  Env, Slot, Scheduler, new, mark_slot_ready, ready_slot, clear_startup_fail, resolve_server_pid,
  record_startup_fail,
}
use llama_proxy.Scheduler.Process.{survives, kept_slots, stop_all, suspend_begin, suspend_end, reap}
use llama_proxy.Scheduler.Arbitration.{launched, launch_slot, restarted}
use llama_proxy.Scheduler.Recovery.{with_server}
use llama_proxy.Scheduler.Channels.{
  IsChannelSafe, replaced-IsChannelSafe, closed-IsChannelSafe, made-IsChannelSafe,
  shrunk-IsChannelSafe,
}

-- One critical section, or a part of one; `touched` changes other fields of a slot (`stopSlotProcess`,
-- `Shutdown`, the log of `restartMember`), and `elsewhere` is one that leaves the slots and the channels alone.
pub data Step : Scheduler → Scheduler → Type 0 where
  readied : {s : Scheduler} → (env : Env) (id : Text) → Step s (mark_slot_ready env s id)
  launches : {s : Scheduler} → (env : Env) (id : Text) → Step s (launch_slot env s id)
  suspending :
      {s : Scheduler}
      → (id : Text) (sl : Slot) → lookup id s.procs ≡ some sl
      → Step s (suspend_begin s id sl)
  suspended :
      {s : Scheduler}
      → (id : Text) (sl : Slot) → lookup id s.procs ≡ some sl
      → Step s (suspend_end s id sl)
  reaped : {s : Scheduler} → (env : Env) (id : Text) (pid : ℕ) → Step s (reap env s id pid)
  stopped : {s : Scheduler} → Step s (stop_all s).1
  restarts :
      {s : Scheduler}
      → (env : Env) (id : Text) (sl : Slot) (e : ProcessConfig) (pid : ℕ)
      → lookup id s.procs ≡ some sl
      → Step s (record s { procs = insert id (restarted env sl e pid) s.procs })
  adopted :
      {s : Scheduler}
      → (id : Text) (sl : Slot) (pid : ℕ) → lookup id s.procs ≡ some sl
      → Step s (with_server s id sl pid)
  touched :
      {s : Scheduler}
      → (id : Text) (sl x : Slot) → lookup id s.procs ≡ some sl
      → x.ready_ch ≡ sl.ready_ch
      → x.ready_ch_closed ≡ sl.ready_ch_closed
      → Step s (record s { procs = insert id x s.procs })
  elsewhere :
      {s t : Scheduler}
      → t.procs ≡ s.procs
      → t.next_ch ≡ s.next_ch
      → t.closed_chs ≡ s.closed_chs
      → Step s t

-- The states that the scheduler reaches from its start.
pub data IsReachable (cfg : SchedulingConfig) (lease : ℤ) (sw : SwitchConfig)
    : Scheduler → Type 0 where
  begins : IsReachable cfg lease sw (new cfg lease sw)
  goes_on : {s t : Scheduler} → IsReachable cfg lease sw s → Step s t → IsReachable cfg lease sw t

abbrev IsSafe : Scheduler → Type 0
IsSafe s = IsChannelSafe s.procs s.next_ch s.closed_chs

new-IsSafe : (cfg : SchedulingConfig) (lease : ℤ) (sw : SwitchConfig) → IsSafe (new cfg lease sw)
unfolding new lookup
new-IsSafe cfg lease sw = record {
  made = λ id sl h. absurd (let bad : none ≡ some sl = h in cc);
  apart = λ i j a b h k. absurd (let bad : none ≡ some a = h in cc);
  still_open = λ id sl h. absurd (let bad : none ≡ some sl = h in cc);
  closed_made = λ c bad. absurd bad;
  once = tt;
}

mark_slot_ready-IsSafe :
    (env : Env) (s : Scheduler) (id : Text) → IsSafe s → IsSafe (mark_slot_ready env s id)
unfolding mark_slot_ready ready_slot clear_startup_fail
mark_slot_ready-IsSafe env s id v = elim (Option-cases (lookup id s.procs)) [
  | inl nope ↦ rw (nope, mark_slot_ready) v
  | inr (sl, at) ↦ elim (Bool-cases sl.ready_ok) [
    | inl ok ↦ rw (at, ok, mark_slot_ready) v
    | inr unready ↦ elim (Bool-cases sl.ready_ch_closed) [
      | inl shut ↦
          rw (at, unready, shut, mark_slot_ready)
            (replaced-IsChannelSafe s.procs s.next_ch s.closed_chs v id sl (ready_slot env sl) at
              refl (sym shut))
      | inr unshut ↦
          rw (at, unready, unshut, mark_slot_ready)
            (closed-IsChannelSafe s.procs s.next_ch s.closed_chs v id sl (ready_slot env sl) at refl
              unshut refl)
    ]
  ]
]

launched-fresh :
    (env : Env) (s : Scheduler) (id : Text) → ((launched env s id).ready_ch ≡ s.next_ch)
unfolding launched
launched-fresh env s id = ground arith

launch_slot-IsSafe :
    (env : Env) (s : Scheduler) (id : Text) → IsSafe s → IsSafe (launch_slot env s id)
unfolding launch_slot
launch_slot-IsSafe env s id v =
    made-IsChannelSafe s.procs s.next_ch s.closed_chs v id (launched env s id)
      (launched-fresh env s id)

-- A step that changes neither the slots nor the channels.
same-IsSafe :
    (s t : Scheduler)
    → t.procs ≡ s.procs
    → t.next_ch ≡ s.next_ch
    → t.closed_chs ≡ s.closed_chs
    → IsSafe s
    → IsSafe t
same-IsSafe s t p n c v = rw (p, n, c) v

record_startup_fail-procs :
    (env : Env) (s : Scheduler) (id : Text)
    → ((record_startup_fail env s id).0.procs ≡ s.procs)
      × ((record_startup_fail env s id).0.next_ch ≡ s.next_ch)
      × ((record_startup_fail env s id).0.closed_chs ≡ s.closed_chs)
unfolding record_startup_fail
record_startup_fail-procs env s id = (ground arith, ground arith, ground arith)

-- The end of `reap`: a sleeping model counts no failure.
reap-counted :
    (env : Env) (s : Scheduler) (id : Text) (asleep : Bool)
    → IsSafe s
    → IsSafe (if asleep then s else (record_startup_fail env s id).0)
reap-counted env s id true v = v
reap-counted env s id false v =
    let (p, n, c) = record_startup_fail-procs env s id in
    same-IsSafe s (record_startup_fail env s id).0 p n c v

reap-IsSafe :
    (env : Env) (s : Scheduler) (id : Text) (pid : ℕ) → IsSafe s → IsSafe (reap env s id pid)
unfolding reap
reap-IsSafe env s id pid v = elim (Option-cases (lookup id s.procs)) [
  | inl nope ↦ rw (nope, reap) v
  | inr (sl, at) ↦ elim (Option-cases sl.cmd) [
    | inl idle ↦ rw (at, idle, reap) v
    | inr (current, shell) ↦ elim (Bool-cases (current == pid)) [
      | inr other ↦ rw (at, shell, other, reap) v
      | inl own ↦
          elim (Option-cases (if sl.port == 0 then none else resolve_server_pid env sl.port)) [
            | inl alone ↦
                rw (at, shell, own, alone, reap)
                  (reap-counted env
                    (record s {
                      procs =
                          insert id (record sl { cmd = none; server_pid = 0; ready_ok = false })
                            s.procs;
                    })
                    id sl.sleeping
                    (replaced-IsChannelSafe s.procs s.next_ch s.closed_chs v id sl
                      (record sl { cmd = none; server_pid = 0; ready_ok = false }) at refl refl))
            | inr (server, taken) ↦
                rw (at, shell, own, taken, reap)
                  (replaced-IsChannelSafe s.procs s.next_ch s.closed_chs v id sl
                    (record sl { cmd = none; server_pid = server }) at refl refl)
          ]
    ]
  ]
]

pub lookup-kept_slots :
    (cfg : SchedulingConfig) (m : Map Slot) (k : Text)
    → lookup k (kept_slots cfg m) ≡ (if survives cfg k then lookup k m else none)
unfolding kept_slots lookup
lookup-kept_slots cfg [] k = ground arith
lookup-kept_slots cfg ((id, sl) ∷ m) k =
    ground (arith, lookup-kept_slots cfg m k, eq_text_iff id k, ap (survives cfg))

stop_all-IsSafe : (s : Scheduler) → IsSafe s → IsSafe (stop_all s).1
unfolding stop_all
stop_all-IsSafe s v =
    shrunk-IsChannelSafe s.procs s.next_ch s.closed_chs v (kept_slots s.cfg s.procs)
      (λ k b h. ground (arith, h, lookup-kept_slots s.cfg s.procs k))

Step-IsSafe : (s t : Scheduler) → Step s t → IsSafe s → IsSafe t
unfolding suspend_begin suspend_end clear_startup_fail restarted
Step-IsSafe s t (readied env id) v = mark_slot_ready-IsSafe env s id v
Step-IsSafe s t (launches env id) v = launch_slot-IsSafe env s id v
Step-IsSafe s t (suspending id sl at) v =
    replaced-IsChannelSafe s.procs s.next_ch s.closed_chs v id sl
      (record sl { sleeping = true; ready_ok = false }) at refl refl
Step-IsSafe s t (suspended id sl at) v =
    made-IsChannelSafe s.procs s.next_ch s.closed_chs v id
      (record sl {
        cmd = none;
        server_pid = 0;
        log_open = false;
        ready_ch = s.next_ch;
        ready_ch_closed = false;
      })
      refl
Step-IsSafe s t (reaped env id pid) v = reap-IsSafe env s id pid v
Step-IsSafe s t stopped v = stop_all-IsSafe s v
Step-IsSafe s t (restarts env id sl e pid at) v =
    replaced-IsChannelSafe s.procs s.next_ch s.closed_chs v id sl (restarted env sl e pid) at refl
      refl
Step-IsSafe s t (adopted id sl pid at) v =
    replaced-IsChannelSafe s.procs s.next_ch s.closed_chs v id sl (record sl { server_pid = pid })
      at refl refl
Step-IsSafe s t (touched id sl x at ch flag) v =
    replaced-IsChannelSafe s.procs s.next_ch s.closed_chs v id sl x at ch flag
Step-IsSafe s t (elsewhere p n c) v = same-IsSafe s t p n c v

-- In every state that the critical sections reach, in any order, no channel was closed twice, no two
-- slots share a channel, and the channel of a slot that does not note it as closed is open.
pub IsReachable-IsChannelSafe :
    (cfg : SchedulingConfig) (lease : ℤ) (sw : SwitchConfig) (s : Scheduler)
    → IsReachable cfg lease sw s
    → IsChannelSafe s.procs s.next_ch s.closed_chs
IsReachable-IsChannelSafe cfg lease sw _ begins = new-IsSafe cfg lease sw
IsReachable-IsChannelSafe cfg lease sw _ (goes_on {s} {t} before step) =
    Step-IsSafe s t step (IsReachable-IsChannelSafe cfg lease sw s before)
