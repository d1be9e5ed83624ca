-- ===== src/Balancer/Counts.antt =====
-- The in-flight counts (internal/balancer/balancer.go: `Enter`, `Leave`, `InflightCount`, and what
-- `Update` keeps).
use llama_proxy.Prelude.{
  ◌+◌, ◌-◌, ◌≡◌, Bool, false, ◌&&◌, List, arith, Text, lookup, lookup-insert, lookup-retain,
  eq_text, eq_text_iff, is_empty, is_some, if◌then◌else◌,
}
use llama_proxy.Config.{BackendConfig}
use llama_proxy.Balancer.{
  Strategies, Balancer, enter, leave, update, inflight_count, count_of, add_backends, no_tables,
}

-- A node that the pool counts: a named backend of the pool.
abbrev pub counts : {B : Type 0} → Balancer B → Text → Bool
counts bb n = if is_empty n then false else is_some (lookup n bb.backends)

module _ {B : Type 0} (bb : Balancer B) where
  -- `Enter` adds 1 to the count of the named node, if the pool holds it, and changes no other.
  pub inflight_count-enter :
      (n m : Text)
      → inflight_count (enter bb n) m
        ≡ (if counts bb n && eq_text n m then inflight_count bb m + 1 else inflight_count bb m)
  unfolding inflight_count enter
  inflight_count-enter n m =
      ground (arith, lookup-insert n m (count_of bb.inflight n + 1) bb.inflight, eq_text_iff n m)

  pub inflight_count-leave :
      (n m : Text)
      → inflight_count (leave bb n) m
        ≡ (if counts bb n && eq_text n m then inflight_count bb m - 1 else inflight_count bb m)
  unfolding inflight_count leave
  inflight_count-leave n m =
      ground (arith, lookup-insert n m (count_of bb.inflight n - 1) bb.inflight, eq_text_iff n m)

module _ {B : Type 0} (bb : Balancer B) where
  pub enter-backends : (n : Text) → (enter bb n).backends ≡ bb.backends
  unfolding enter
  enter-backends n = ground arith

  pub leave-backends : (n : Text) → (leave bb n).backends ≡ bb.backends
  unfolding leave
  leave-backends n = ground arith

module _ {B : Type 0} (S : Strategies B) (bb : Balancer B) (list : List BackendConfig) where
  -- `Update` keeps the count of a node that the new pool holds, and forgets the others.
  pub inflight_count-update :
      (n : Text)
      → inflight_count (update S bb list) n
        ≡ (if is_some (lookup n (update S bb list).backends) then inflight_count bb n else 0)
  unfolding inflight_count update
  inflight_count-update n = ground (
    arith,
    lookup-retain (λ k. is_some (lookup k (add_backends no_tables list).backends)) n bb.inflight,
  )
