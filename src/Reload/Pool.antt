-- ===== src/Reload/Pool.antt =====
-- A reload takes the ready local models out of the pool (config_watch.go, pool.go).
use llama_proxy.Prelude.{
  ◌≤◌, arith, subst, Map, length, ◌≡◌, refl, sym, ap, ◌∙◌, some, arith, eq_text_refl, Option-cases,
  inl, inr, ℕ, zero, suc,
}
use llama_proxy.Config.{YamlConfig}
use llama_proxy.Config.Loading.{LegacyConfig}
use llama_proxy.Balancer.{Strategies, Balancer, update}
use llama_proxy.Scheduler.{Env, Slot, Scheduler, set_timings}
use llama_proxy.Scheduler.Queries.{local_nodes}
use llama_proxy.Scheduler.Order.{IsOrder, local_nodes-order}
use llama_proxy.Pool.{signature, sync_local_backend_nodes}
use llama_proxy.Reload.{Server, reload_config, reload_balancer, reload_scheduler, sync}

-- The scheduler of the server after a reload has the nodes that it had.
reload_scheduler-nodes :
    (env : Env) (sch : Scheduler) (c : YamlConfig)
    → (next : Scheduler) × (reload_scheduler (some sch) c ≡ some next)
      × (local_nodes env next ≡ local_nodes env sch)
unfolding reload_scheduler set_timings local_nodes
reload_scheduler-nodes env sch c = elim (Option-cases c.scheduling) [
  | inl off ↦ (sch, rw off refl, refl)
  | inr (sc, on) ↦ (set_timings sch sc.lease.coding_idle_timeout sc.switch, rw on refl, refl)
]

-- The synchronisation, made n times, with an order for each.
unfoldable pub syncs :
    {B : Type 0} → Strategies B → Env → (ℕ → Map Slot → Map Slot) → ℕ → Server B → Server B
syncs S env orders zero s = s
syncs S env orders (suc n) s = sync S env (orders n) (syncs S env orders n s)

module _ {B : Type 0} (S : Strategies B) (env : Env) (orders : ℕ → Map Slot → Map Slot)
    (fair : (n : ℕ) → IsOrder (orders n)) where
  -- The pool is `bb`, and the signature is that of the scheduler's nodes, of which there is at most one.
  record IsSettled (bb : Balancer B) (sch : Scheduler) (s : Server B) : Type 0 where
    pool : s.balancer ≡ some bb
    runs : s.scheduler ≡ some sch
    signed : s.local_node_sig ≡ signature (local_nodes env sch)
    few : length (local_nodes env sch) ≤ 1

  sync-IsSettled :
      (bb : Balancer B) (sch : Scheduler) (n : ℕ) (s : Server B)
      → IsSettled bb sch s
      → IsSettled bb sch (sync S env (orders n) s)
  unfolding sync sync_local_backend_nodes
  sync-IsSettled bb sch n s k =
      let same = eq_text_refl (signature (local_nodes env sch)) in
      let listed = ap signature (local_nodes-order env sch (orders n) (fair n) k.few) in
      record {
        pool = ground (arith, k.pool, k.runs, k.signed, same, listed);
        runs = ground (arith, k.pool, k.runs, k.signed, same, listed);
        signed = ground (arith, k.pool, k.runs, k.signed, same, listed);
        few = k.few;
      }

  syncs-IsSettled :
      (bb : Balancer B) (sch : Scheduler) (n : ℕ) (s : Server B)
      → IsSettled bb sch s
      → IsSettled bb sch (syncs S env orders n s)
  unfolding syncs
  syncs-IsSettled bb sch zero s k = k
  syncs-IsSettled bb sch (suc n) s k =
      sync-IsSettled bb sch n (syncs S env orders n s) (syncs-IsSettled bb sch n s k)

  -- If at most one local model is ready and the pool has it (the signature is that of the ready models), a reload
  -- leaves only the configured backends in it, and no number of synchronisations, in whichever orders they visit the
  -- slots, brings the model back while the scheduler stays as it is.
  pub reload_config-forgets :
      (s : Server B) (l : LegacyConfig) (c : YamlConfig) (bb : Balancer B) (sch : Scheduler) (n : ℕ)
      → s.balancer ≡ some bb
      → s.scheduler ≡ some sch
      → length (local_nodes env sch) ≤ 1
      → s.local_node_sig ≡ signature (local_nodes env sch)
      → (syncs S env orders n (reload_config S s l c).0).balancer ≡ some (update S bb c.backends)
  unfolding reload_config reload_balancer
  reload_config-forgets s l c bb sch n pool on few sig =
      let (next, runs, nodes) = reload_scheduler-nodes env sch c in
      (syncs-IsSettled (update S bb c.backends) next n (reload_config S s l c).0 (record {
        pool = rw pool refl;
        runs = ap (λ x. reload_scheduler x c) on ∙ runs;
        signed = sig ∙ ap signature (sym nodes);
        few = subst (λ l. length l ≤ 1) (sym nodes) few;
      })).pool
