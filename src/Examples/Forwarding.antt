-- ===== src/Examples/Forwarding.antt =====
-- A request whose two backends refuse the connection, and the rebuilt pool.
use llama_proxy.Prelude.{
  has_prefix, ℕ, ◌≡◌, refl, true, Option, none, some, List, [], ◌∷◌, Text, lookup, insert, retain,
  keys, keep_if, member, is_empty, is_space, eq_text, trim_space, trim_left_if, trim_right_if,
  sort_texts, leb_text,
}
use llama_proxy.Config.{validate_backend_url, effective_tags}
use llama_proxy.Balancer.{
  Balancer, update, new_strategy_balancer, add_backends, add_backend, add_tags, map_values, select,
  select_excluding, select_least_loaded, select_tied, rotate, first_tied, max_tries, weight_sum,
  best_load, best_ratio, best_count, is_tied, all_eligible, exclude_eligible, enter, leave,
  inflight_count,
}
use llama_proxy.Balancer.Sync.{update-IsSynced}
use llama_proxy.Proxy.{
  is_unbuilt, Candidate, Attempt, Reply, refused, whole_pool, Outcome, served, not_sent, all_failed,
  out_of_fuel, handle, first_backend, next_backend, forward, after, candidate_key, candidate_name,
  node_of, attempt_of, status_of, is_success,
}
use llama_proxy.Proxy.Failover.{ended, IsReport}
use llama_proxy.Proxy.Request.{handle-ends, handle-all_failed, handle-after}
use llama_proxy.Examples.{in_turn, name_a, two_backends, empty_pool}

abbrev pool : Balancer (List Text)
pool = update in_turn empty_pool two_backends

abbrev refuse : List Attempt → Candidate → Reply
refuse done cand = refused (120 ∷ [])

abbrev outcome : Option (Outcome (List Text))
outcome = handle in_turn whole_pool refuse pool

abbrev status_in : Option (Outcome (List Text)) → ℕ
status_in none = 0
status_in (some (served cand bb)) = 0
status_in (some (all_failed st attempts bb)) = st
status_in (some (not_sent st error bb)) = st
status_in (some (out_of_fuel bb)) = 0

abbrev attempts_in : Option (Outcome (List Text)) → List Attempt
attempts_in none = []
attempts_in (some (served cand bb)) = []
attempts_in (some (all_failed st attempts bb)) = attempts
attempts_in (some (not_sent st error bb)) = []
attempts_in (some (out_of_fuel bb)) = []

abbrev pool_in : Option (Outcome (List Text)) → Balancer (List Text)
pool_in none = empty_pool
pool_in (some (served cand bb)) = bb
pool_in (some (all_failed st attempts bb)) = bb
pool_in (some (not_sent st error bb)) = bb
pool_in (some (out_of_fuel bb)) = bb

outcome-all_failed :
    outcome ≡ some (all_failed (status_in outcome) (attempts_in outcome) (pool_in outcome))
unfolding validate_backend_url has_prefix handle first_backend next_backend forward candidate_key
    candidate_name node_of attempt_of status_of is_success is_unbuilt update new_strategy_balancer
    add_backends add_backend add_tags map_values select select_excluding select_least_loaded
    select_tied rotate first_tied max_tries weight_sum best_load best_ratio best_count is_tied
    all_eligible exclude_eligible enter leave lookup insert retain keys keep_if member is_empty
    is_space eq_text trim_space trim_left_if trim_right_if sort_texts leb_text effective_tags
outcome-all_failed = refl

handle-ends_example :
    ended (all_failed (status_in outcome) (attempts_in outcome) (pool_in outcome)) ≡ true
handle-ends_example =
    handle-ends in_turn whole_pool refuse pool
      (all_failed (status_in outcome) (attempts_in outcome) (pool_in outcome))
      (update-IsSynced in_turn empty_pool two_backends) outcome-all_failed

handle-all_failed_example : IsReport whole_pool pool (attempts_in outcome)
handle-all_failed_example =
    handle-all_failed in_turn whole_pool refuse pool (pool_in outcome) (status_in outcome)
      (attempts_in outcome) (update-IsSynced in_turn empty_pool two_backends) outcome-all_failed

handle-after_example :
    inflight_count
      (after (all_failed (status_in outcome) (attempts_in outcome) (pool_in outcome)))
      name_a
    ≡ inflight_count pool name_a
handle-after_example =
    handle-after in_turn whole_pool refuse pool
      (all_failed (status_in outcome) (attempts_in outcome) (pool_in outcome)) name_a
      outcome-all_failed
