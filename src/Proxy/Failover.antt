-- ===== src/Proxy/Failover.antt =====
-- The failover loop (proxy.go: `handleProxy`): which backends it tries, and that it ends.
use llama_proxy.Prelude.{
  In-last, last-In, Distinct-last, ℕ, zero, suc, ◌<◌, ◌≡◌, refl, ap, subst, ◌∙◌, ◌⊎◌, inl, inr,
  Bool, true, false, none, some, List, [], ◌∷◌, ◌++◌, arith, Text, In, Distinct, length, keys,
  member, eq_text, eq_text_iff, eq_text_refl, Bool-cases, Option-cases,
}
use llama_proxy.Balancer.{Strategies, Balancer, enter, leave}
use llama_proxy.Balancer.Sync.{IsSynced, enter-IsSynced, leave-IsSynced}
use llama_proxy.Proxy.{
  Candidate, Attempt, Reply, Source, Outcome, served, not_sent, all_failed, out_of_fuel,
  next_backend, forward, node_of, candidate_key, candidate_name, attempt_of, is_unbuilt, is_success,
  names_of,
}
use llama_proxy.Proxy.Balance.{leave-enter-backends}
use llama_proxy.Proxy.Tried.{
  names_of-append, attempt_of-name, untried, untried-drops, untried_bound, length-keys,
}
use llama_proxy.Proxy.Next.{
  in_source, in_source-backends, IsNew, next_backend-IsNew, next_backend-total,
  next_backend-IsSynced, next_backend-backends,
}

-- What the client is told when all backends failed: each backend of the source once.
pub record IsReport {B : Type 0} (source : Source) (bb : Balancer B) (attempts : List Attempt)
    : Type 0 where
  pub distinct : Distinct (names_of attempts)
  pub complete : (n : Text) → in_source source bb n ≡ true → In n (names_of attempts)

-- The loop has come to an end.
unfoldable pub ended : {B : Type 0} → Outcome B → Bool
ended (served cand bb) = true
ended (not_sent status error bb) = true
ended (all_failed status attempts bb) = true
ended (out_of_fuel bb) = false

module _ {B : Type 0} (S : Strategies B) where
  module _ (source : Source) (send : List Attempt → Candidate → Reply) where
    -- The loop's step to the next backend.
    abbrev left_of : Balancer B → Candidate → Balancer B
    left_of bb cand = leave (enter bb (node_of cand)) (node_of cand)

    left_of-IsSynced :
        (bb : Balancer B) (cand : Candidate) → IsSynced bb → IsSynced (left_of bb cand)
    left_of-IsSynced bb cand v =
        leave-IsSynced (enter bb (node_of cand)) (node_of cand) (enter-IsSynced bb (node_of cand) v)

    step-backends :
        (bb : Balancer B) (cand : Candidate) (tried : List Text)
        → (next_backend S source (left_of bb cand) tried).1.backends ≡ bb.backends
    step-backends bb cand tried =
        next_backend-backends S source (left_of bb cand) tried
        ∙ leave-enter-backends bb (node_of cand)

    step-IsSynced :
        (bb : Balancer B) (cand : Candidate) (tried : List Text)
        → IsSynced bb
        → IsSynced (next_backend S source (left_of bb cand) tried).1
    step-IsSynced bb cand tried v =
        next_backend-IsSynced S source (left_of bb cand) tried (left_of-IsSynced bb cand v)

    step-IsNew :
        (bb : Balancer B) (cand : Candidate) (tried : List Text) (nb : Candidate)
        → IsSynced bb
        → (next_backend S source (left_of bb cand) tried).0 ≡ some nb
        → IsNew S bb tried nb
    step-IsNew bb cand tried nb v h =
        let (named, at, new) =
          next_backend-IsNew S source (left_of bb cand) tried nb (left_of-IsSynced bb cand v) h in
        (named, rw (leave-enter-backends bb (node_of cand)) at at, new)

    forward-ends_in :
        (fuel : ℕ) (bb : Balancer B) (cand : Candidate) (tried : List Text) (done : List Attempt)
        → IsSynced bb
        → untried tried (keys bb.backends) < fuel
        → ended (forward S source send fuel bb cand tried done) ≡ true
    unfolding forward ended
    forward-ends_in zero bb cand tried done v enough = absurd (omega (arith, enough))
    forward-ends_in (suc fuel) bb cand tried done v enough =
        let next = next_backend S source (left_of bb cand) tried in
        let noted = done ++ attempt_of cand (send done cand) ∷ [] in
        elim (Bool-cases (is_unbuilt (send done cand))) [
          | inl failed ↦ rw failed refl
          | inr built ↦ elim (Bool-cases (is_success (send done cand))) [
            | inl good ↦ rw (built, good) refl
            | inr bad ↦ elim (Option-cases next.0) [
              | inl nope ↦ rw (built, bad, nope) refl
              | inr (nb, found) ↦
                  let (named, at, new) = step-IsNew bb cand tried nb v found in
                  rw (built, bad, found)
                    (forward-ends_in fuel next.1 nb (candidate_key nb ∷ tried) noted
                      (step-IsSynced bb cand tried v)
                      (rw (step-backends bb cand tried) (
                        omega (
                          arith,
                          enough,
                          untried-drops (candidate_key nb) tried (keys bb.backends) at new,
                        ))))
            ]
          ]
        ]

    pub forward-ends :
        (bb : Balancer B) (cand : Candidate) (tried : List Text) (done : List Attempt)
        → IsSynced bb
        → ended (forward S source send (suc (length bb.backends)) bb cand tried done) ≡ true
    forward-ends bb cand tried done v =
        forward-ends_in (suc (length bb.backends)) bb cand tried done v
          (omega (arith, untried_bound tried (keys bb.backends), length-keys bb.backends))

    -- What the loop keeps: the tried keys are the names noted, and the key of the candidate.
    pub record IsTracked (cand : Candidate) (tried : List Text) (done : List Attempt) : Type 0 where
      pub named : candidate_name cand ≡ candidate_key cand
      pub noted :
          (n : Text) → member n tried ≡ true → (candidate_key cand ≡ n) ⊎ In n (names_of done)
      pub kept : (n : Text) → In n (names_of done) → member n tried ≡ true
      pub here : member (candidate_key cand) tried ≡ true
      pub fresh : ¬ In (candidate_key cand) (names_of done)
      pub distinct : Distinct (names_of done)

    abbrev noted_names : Candidate → List Attempt → List Text
    noted_names cand done = names_of (done ++ attempt_of cand (send done cand) ∷ [])

    noted_names-last :
        (cand : Candidate) (tried : List Text) (done : List Attempt)
        → IsTracked cand tried done
        → noted_names cand done ≡ names_of done ++ candidate_key cand ∷ []
    noted_names-last cand tried done t =
        names_of-append done (attempt_of cand (send done cand))
        ∙ ap (λ n. names_of done ++ n ∷ []) (attempt_of-name cand (send done cand) ∙ t.named)

    noted_names-Distinct :
        (cand : Candidate) (tried : List Text) (done : List Attempt)
        → IsTracked cand tried done
        → Distinct (noted_names cand done)
    noted_names-Distinct cand tried done t =
        rw (noted_names-last cand tried done t)
          (Distinct-last (candidate_key cand) (names_of done) t.distinct t.fresh)

    noted_names-In :
        (cand : Candidate) (tried : List Text) (done : List Attempt) (n : Text)
        → IsTracked cand tried done
        → member n tried ≡ true
        → In n (noted_names cand done)
    noted_names-In cand tried done n t m =
        rw (noted_names-last cand tried done t)
          (last-In n (candidate_key cand) (names_of done) (t.noted n m))

    In-noted_names :
        (cand : Candidate) (tried : List Text) (done : List Attempt) (n : Text)
        → IsTracked cand tried done
        → In n (noted_names cand done)
        → member n tried ≡ true
    In-noted_names cand tried done n t m =
        elim (In-last n (candidate_key cand) (names_of done)
          (rw (noted_names-last cand tried done t) at m)) [
            | inl e ↦ rw (ap (λ k. member k tried) e) at t.here
            | inr k ↦ t.kept n k
          ]

    step-IsTracked :
        (cand nb : Candidate) (tried : List Text) (done : List Attempt)
        → IsTracked cand tried done
        → candidate_name nb ≡ candidate_key nb
        → member (candidate_key nb) tried ≡ false
        → IsTracked nb (candidate_key nb ∷ tried) (done ++ attempt_of cand (send done cand) ∷ [])
    unfolding member
    step-IsTracked cand nb tried done t named new = record {
      named = named;
      noted = λ n m. elim (Bool-cases (eq_text (candidate_key nb) n)) [
        | inl e ↦ inl (ground (arith, eq_text_iff (candidate_key nb) n, e))
        | inr e ↦ inr (noted_names-In cand tried done n t (ground (arith, e, m)))
      ];
      kept = λ n m. ground (arith, In-noted_names cand tried done n t m);
      here = ground (arith, eq_text_refl (candidate_key nb));
      fresh =
          λ m. absurd (ground (arith, In-noted_names cand tried done (candidate_key nb) t m, new));
      distinct = noted_names-Distinct cand tried done t;
    }

    -- The attempts that an answer reports.
    abbrev report_of : Outcome B → List Attempt
    report_of (served cand bb) = []
    report_of (not_sent status error bb) = []
    report_of (all_failed status attempts bb) = attempts
    report_of (out_of_fuel bb) = []

    reports_at_end :
        (bb : Balancer B) (cand : Candidate) (tried : List Text) (done : List Attempt)
        → IsSynced bb
        → IsTracked cand tried done
        → (next_backend S source (left_of bb cand) tried).0 ≡ none
        → IsReport source bb (done ++ attempt_of cand (send done cand) ∷ [])
    reports_at_end bb cand tried done v t nope = record {
      distinct = noted_names-Distinct cand tried done t;
      complete = λ n within. noted_names-In cand tried done n t (
          next_backend-total S source (left_of bb cand) tried n (left_of-IsSynced bb cand v) nope (
            in_source-backends source (left_of bb cand) bb n
              (leave-enter-backends bb (node_of cand))
            ∙ within));
    }

    pub tracked-reports :
        (fuel : ℕ) (bb : Balancer B) (cand : Candidate) (tried : List Text) (done : List Attempt)
        → (status : ℕ) (attempts : List Attempt) (last : Balancer B) → IsSynced bb
        → IsTracked cand tried done
        → forward S source send fuel bb cand tried done ≡ all_failed status attempts last
        → IsReport source bb attempts
    unfolding forward
    tracked-reports zero bb cand tried done status attempts last v t h = cc
    tracked-reports (suc fuel) bb cand tried done status attempts last v t h =
        let next = next_backend S source (left_of bb cand) tried in
        let noted = done ++ attempt_of cand (send done cand) ∷ [] in
        elim (Bool-cases (is_unbuilt (send done cand))) [
          | inl failed ↦ let bad = rw failed at h in cc
          | inr built ↦ elim (Bool-cases (is_success (send done cand))) [
            | inl good ↦ let bad = rw (built, good) at h in cc
            | inr bad ↦ elim (Option-cases next.0) [
              | inl nope ↦
                  subst (IsReport source bb) (ap report_of (rw (built, bad, nope) at h))
                    (reports_at_end bb cand tried done v t nope)
              | inr (nb, found) ↦
                  let (named, at, new) = step-IsNew bb cand tried nb v found in
                  let later =
                    tracked-reports fuel next.1 nb (candidate_key nb ∷ tried) noted status attempts
                      last (step-IsSynced bb cand tried v)
                      (step-IsTracked cand nb tried done t named new)
                      (rw (built, bad, found) at h) in
                  record {
                    distinct = later.distinct;
                    complete = λ n within. later.complete n (
                        in_source-backends source next.1 bb n (step-backends bb cand tried)
                        ∙ within);
                  }
            ]
          ]
        ]
