-- ===== src/Proxy/Request.antt =====
-- One request, from the first backend to the answer (proxy.go: `handleProxy`; proxy_backend.go:
-- `selectBackend`).
use llama_proxy.Prelude.{
  Bool-cases, is_some, ℕ, suc, ◌≡◌, refl, sym, ap, subst, ◌∙◌, inl, inr, true, some, List, [], ◌∷◌,
  arith, Text, member, eq_text_refl, eq_text_iff, Option-cases, some-injective, length,
}
use llama_proxy.Config.{validate_backend_url}
use llama_proxy.Balancer.{
  Strategies, Balancer, select, select_from_tag, select_from_tag_excluding, inflight_count,
}
use llama_proxy.Balancer.Sync.{IsSynced, select_from_tag_excluding-IsSynced}
use llama_proxy.Proxy.{
  Candidate, Attempt, Reply, Source, no_failover, whole_pool, tag_pool, Outcome, all_failed,
  forward, first_backend, handle, after, candidate_key, candidate_name, names_of,
}
use llama_proxy.Proxy.Next.{candidate-some, in_source-backends}
use llama_proxy.Proxy.Balance.{inflight_count-after}
use llama_proxy.Proxy.Failover.{ended, IsReport, IsTracked, forward-ends, tracked-reports}

module _ {B : Type 0} (S : Strategies B) where
  first_backend-IsSynced :
      (source : Source) (bb : Balancer B) → IsSynced bb → IsSynced (first_backend S source bb).1
  unfolding first_backend select select_from_tag
  first_backend-IsSynced no_failover bb v = v
  first_backend-IsSynced whole_pool bb v = record {
    named = v.named;
    tagged = v.tagged;
    counted = v.counted;
  }
  first_backend-IsSynced (tag_pool tag) bb v = select_from_tag_excluding-IsSynced S bb tag [] v

  first_backend-backends :
      (source : Source) (bb : Balancer B) → (first_backend S source bb).1.backends ≡ bb.backends
  unfolding first_backend select select_from_tag select_from_tag_excluding
  first_backend-backends no_failover bb = refl
  first_backend-backends whole_pool bb = refl
  first_backend-backends (tag_pool tag) bb = ground arith

  first_backend-inflight :
      (source : Source) (bb : Balancer B) (n : Text)
      → inflight_count (first_backend S source bb).1 n ≡ inflight_count bb n
  unfolding first_backend select select_from_tag select_from_tag_excluding inflight_count
  first_backend-inflight no_failover bb n = refl
  first_backend-inflight whole_pool bb n = refl
  first_backend-inflight (tag_pool tag) bb n = ground arith

  first_backend-named :
      (source : Source) (bb : Balancer B) (cand : Candidate)
      → (first_backend S source bb).0 ≡ some cand
      → candidate_name cand ≡ candidate_key cand
  unfolding first_backend candidate_name candidate_key
  first_backend-named no_failover bb cand h = cc
  first_backend-named whole_pool bb cand h =
      let (c, found, same) = candidate-some S (select S bb).0 cand h in
      subst (λ x. candidate_name x ≡ candidate_key x) same refl
  first_backend-named (tag_pool tag) bb cand h =
      let (c, found, same) = candidate-some S (select_from_tag S bb tag).0 cand h in
      subst (λ x. candidate_name x ≡ candidate_key x) same refl

  module _ (source : Source) (send : List Attempt → Candidate → Reply) where
    start-IsTracked :
        (cand : Candidate)
        → candidate_name cand ≡ candidate_key cand
        → IsTracked S source send cand (candidate_key cand ∷ []) []
    unfolding member names_of
    start-IsTracked cand named = record {
      named = named;
      noted = λ n m. inl (ground (arith, eq_text_iff (candidate_key cand) n, m));
      kept = λ n bad. absurd bad;
      here = ground (arith, eq_text_refl (candidate_key cand));
      fresh = λ bad. bad;
      distinct = tt;
    }

    -- The loop that `handle` runs.
    handle-forward :
        (bb : Balancer B) (out : Outcome B)
        → handle S source send bb ≡ some out
        → (cand : Candidate) × ((first_backend S source bb).0 ≡ some cand)
          × (forward S source send
                (suc (length bb.backends))
                (first_backend S source bb).1
                cand
                (candidate_key cand ∷ [])
                []
              ≡ out)
    unfolding handle
    handle-forward bb out h = elim (Option-cases (first_backend S source bb).0) [
      | inl nope ↦ absurd (let bad = rw (nope, handle) at h in cc)
      | inr (cand, found) ↦ elim (Bool-cases (is_some (validate_backend_url cand.url))) [
        | inl bad ↦ absurd (let no = rw (found, bad, handle) at h in cc)
        | inr good ↦ (
          cand,
          found,
          some-injective
              (forward S source send (suc (length bb.backends)) (first_backend S source bb).1 cand
                (candidate_key cand ∷ []) [])
              out (rw (found, good, handle) at h),
        )
      ]
    ]

    -- On a synced pool the failover loop of a request ends within as many rounds as the pool has
    -- backends, and one more, whatever the backends answer.
    pub handle-ends :
        (bb : Balancer B) (out : Outcome B)
        → IsSynced bb
        → handle S source send bb ≡ some out
        → ended out ≡ true
    handle-ends bb out v h =
        let (cand, found, same) = handle-forward bb out h in
        let first = (first_backend S source bb).1 in
        rw (sym same, ap length (sym (first_backend-backends source bb)))
          (forward-ends S source send first cand (candidate_key cand ∷ []) []
            (first_backend-IsSynced source bb v))

    -- If all backends fail a request on a synced pool, the attempts that the client gets name no backend twice,
    -- and name every backend that the request could be sent to: all of the pool, or all that carry
    -- the tag of the matched rule.
    pub handle-all_failed :
        (bb last : Balancer B) (status : ℕ) (attempts : List Attempt)
        → IsSynced bb
        → handle S source send bb ≡ some (all_failed status attempts last)
        → IsReport source bb attempts
    handle-all_failed bb last status attempts v h =
        let (cand, found, same) = handle-forward bb (all_failed status attempts last) h in
        let first = (first_backend S source bb).1 in
        let report =
          tracked-reports S source send (suc (length bb.backends)) first cand
            (candidate_key cand ∷ []) [] status attempts last (first_backend-IsSynced source bb v)
            (start-IsTracked cand (first_backend-named source bb cand found)) same in
        record {
          distinct = report.distinct;
          complete = λ n within.
              report.complete n
                (in_source-backends source first bb n (first_backend-backends source bb) ∙ within);
        }

    -- When a request is over, whether a backend served it, all failed or the request to one could not be built, every
    -- node has the in-flight count that it had before.
    pub handle-after :
        (bb : Balancer B) (out : Outcome B) (n : Text)
        → handle S source send bb ≡ some out
        → inflight_count (after out) n ≡ inflight_count bb n
    handle-after bb out n h =
        let (cand, found, same) = handle-forward bb out h in
        subst (λ o. inflight_count (after o) n ≡ inflight_count bb n) same
          (inflight_count-after S source send (suc (length bb.backends))
              (first_backend S source bb).1 cand (candidate_key cand ∷ []) [] n
            ∙ first_backend-inflight source bb n)
