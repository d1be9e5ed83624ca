-- ===== src/Proxy/Balance.antt =====
-- The in-flight counts over one request (proxy.go: `handleProxy`; proxy_backend.go: `enterNode`,
-- `leaveNode`).
use llama_proxy.Prelude.{
  ℕ, zero, suc, ◌≡◌, refl, ◌∙◌, inl, inr, List, [], ◌∷◌, ◌++◌, arith, Text, Bool-cases,
  Option-cases,
}
use llama_proxy.Balancer.{
  Strategies, Balancer, enter, leave, inflight_count, select_excluding, select_from_tag_excluding,
}
use llama_proxy.Balancer.Counts.{
  counts, inflight_count-enter, inflight_count-leave, enter-backends, leave-backends,
}
use llama_proxy.Proxy.{
  Candidate, Attempt, Reply, Source, no_failover, whole_pool, tag_pool, next_backend, forward,
  after, node_of, candidate_key, attempt_of, is_unbuilt, is_success,
}

module _ {B : Type 0} (bb : Balancer B) where
  pub counts-enter : (n m : Text) → counts (enter bb n) m ≡ counts bb m
  counts-enter n m = rw (enter-backends bb n)

  -- `Leave` takes back what `Enter` of the same node added.
  pub leave-enter : (n m : Text) → inflight_count (leave (enter bb n) n) m ≡ inflight_count bb m
  leave-enter n m =
      ground (
        arith,
        inflight_count-leave (enter bb n) n m,
        inflight_count-enter bb n m,
        counts-enter n n,
      )

  pub leave-enter-backends : (n : Text) → (leave (enter bb n) n).backends ≡ bb.backends
  leave-enter-backends n = leave-backends (enter bb n) n ∙ enter-backends bb n

module _ {B : Type 0} (S : Strategies B) where
  pub next_backend-inflight :
      (source : Source) (bb : Balancer B) (tried : List Text) (m : Text)
      → inflight_count (next_backend S source bb tried).1 m ≡ inflight_count bb m
  unfolding next_backend select_excluding select_from_tag_excluding inflight_count
  next_backend-inflight no_failover bb tried m = refl
  next_backend-inflight whole_pool bb tried m = refl
  next_backend-inflight (tag_pool tag) bb tried m = ground arith

  module _ (source : Source) (send : List Attempt → Candidate → Reply) where
    pub inflight_count-after :
        (fuel : ℕ) (bb : Balancer B) (cand : Candidate) (tried : List Text)
        (attempts : List Attempt)
        → (m : Text)
        → inflight_count (after (forward S source send fuel bb cand tried attempts)) m
          ≡ inflight_count bb m
    unfolding forward after
    inflight_count-after zero bb cand tried attempts m = refl
    inflight_count-after (suc fuel) bb cand tried attempts m =
        let node = node_of cand in
        let left = leave (enter bb node) node in
        let next = next_backend S source left tried in
        let noted = attempts ++ attempt_of cand (send attempts cand) ∷ [] in
        let same : inflight_count next.1 m ≡ inflight_count bb m =
          next_backend-inflight source left tried m ∙ leave-enter bb node m in
        elim (Bool-cases (is_unbuilt (send attempts cand))) [
          | inl failed ↦ rw failed refl
          | inr built ↦ elim (Bool-cases (is_success (send attempts cand))) [
            | inl good ↦ rw (built, good) (leave-enter bb node m)
            | inr bad ↦ elim (Option-cases next.0) [
              | inl nope ↦ rw (built, bad, nope) same
              | inr (nb, found) ↦
                  rw (built, bad, found)
                    (inflight_count-after fuel next.1 nb (candidate_key nb ∷ tried) noted m ∙ same)
            ]
          ]
        ]
