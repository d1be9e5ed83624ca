-- ===== src/Scheduler/Signals.antt =====
-- The processes that are signalled when the scheduler ends (internal/scheduler/scheduler.go:
-- `Shutdown`; process.go: `stopSlotProcess`).
use llama_proxy.Prelude.{
  last-In, ℕ, ◌≡◌, ◌≢◌, refl, inl, true, none, some, List, [], ◌∷◌, arith, Map, In, All,
}
use llama_proxy.Scheduler.{Env, Slot, Scheduler, resolve_server_pid}
use llama_proxy.Scheduler.Process.{
  stop_targets, resolved_slot, server_target, cmd_target, pid_in, shutdown, shutdown_slots,
  shutdown_targets, forgotten,
}

-- No process listens on the port of the slot.
abbrev pub IsSilent : Env → Slot → Type 0
IsSilent env sl = env.listener sl.port ≡ none

stop_targets-forgotten :
    (env : Env) (sl : Slot) → IsSilent env sl → stop_targets env (forgotten sl) ≡ []
unfolding stop_targets resolved_slot server_target cmd_target resolve_server_pid
stop_targets-forgotten env sl silent = ground (arith, silent)

All-forgotten :
    (env : Env) (m : Map Slot)
    → All (λ p. IsSilent env p.1) m
    → All (λ targets. targets ≡ []) (shutdown_targets env (shutdown_slots m))
unfolding shutdown_targets shutdown_slots
All-forgotten env [] all = tt
All-forgotten env ((id, sl) ∷ m) (one, all) =
    (stop_targets-forgotten env sl one, All-forgotten env m all)

-- If nothing listens on the port of any slot, `Shutdown` signals no process at all, whichever shells
-- the slots have.
pub shutdown-IsSilent :
    (env : Env) (s : Scheduler)
    → All (λ p. IsSilent env p.1) s.procs
    → All (λ targets. targets ≡ []) (shutdown env s)
unfolding shutdown
shutdown-IsSilent env s silent = All-forgotten env s.procs silent

pub pid_in→In : (ps : List ℕ) (pid : ℕ) → pid_in ps pid ≡ true → In pid ps
unfolding pid_in
pid_in→In [] pid h = cc
pid_in→In (p ∷ ps) pid h = ground (arith, pid_in→In ps pid, h)

-- `stopSlotProcess` signals the shell of the slot, unless it is the proxy itself.
pub stop_targets-In :
    (env : Env) (sl : Slot) (pid : ℕ)
    → sl.cmd ≡ some pid
    → pid ≢ env.self
    → In pid (stop_targets env sl)
unfolding stop_targets cmd_target
stop_targets-In env sl pid shell other = ground (
  arith,
  shell,
  other,
  last-In pid pid (server_target env (resolved_slot env sl)) (inl refl),
  pid_in→In (server_target env (resolved_slot env sl)) pid,
)
