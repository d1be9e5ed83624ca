-- ===== src/Balancer/Selection.antt =====
-- The four selection methods of the balancer (internal/balancer/balancer.go) against one
-- specification.
use llama_proxy.Prelude.{
  ◌*◌, ◌≤◌, ◌<◌, ◌≡◌, sym, subst, ◌∙◌, inl, inr, Bool, true, not, ◌&&◌, Option, none, some, List,
  arith, Text, keys, lookup, lookup→In-keys, In-keys→lookup, member, Option-cases, is_some,
}
use llama_proxy.Config.{BackendConfig}
use llama_proxy.Balancer.{
  Strategies, Balancer, select_least_loaded, weight_of, count_of, exclude_eligible, tag_eligible,
  all_eligible, select, select_excluding, select_from_tag_excluding, has_tag,
}
use llama_proxy.Balancer.LeastLoaded.{IsLeast, capacity}
use llama_proxy.Balancer.Choice.{select_least_loaded-IsLeast, select_least_loaded-finds}
use llama_proxy.Balancer.Sync.{IsSynced}

-- The result `r` of a selection among the pool's backends that fit.
pub record IsChoice {B : Type 0} (bb : Balancer B) (fits : Text → BackendConfig → Bool)
    (r : Option BackendConfig) : Type 0 where
  pub sound :
      (c : BackendConfig)
      → r ≡ some c
      → (lookup c.name bb.backends ≡ some c) × (fits c.name c ≡ true)
  pub least :
      (c d : BackendConfig) (n : Text)
      → r ≡ some c
      → lookup n bb.backends ≡ some d
      → fits n d ≡ true
      → 0 < d.weight
      → count_of bb.inflight c.name * d.weight ≤ count_of bb.inflight n * capacity c.weight
  pub least_unweighted :
      (c : BackendConfig)
      → r ≡ some c
      → ((n : Text) (d : BackendConfig)
          → lookup n bb.backends ≡ some d
          → fits n d ≡ true
          → d.weight ≡ 0)
      → (n : Text) (d : BackendConfig) → lookup n bb.backends ≡ some d
      → fits n d ≡ true
      → count_of bb.inflight c.name ≤ count_of bb.inflight n
  pub total :
      (n : Text) (d : BackendConfig)
      → lookup n bb.backends ≡ some d
      → fits n d ≡ true
      → is_some r ≡ true

module _ {B : Type 0} (S : Strategies B) (bb : Balancer B) (synced : IsSynced bb) where
  module _ (elig : Text → Bool) (fits : Text → BackendConfig → Bool)
      (agree : (n : Text) (d : BackendConfig)
        → lookup n bb.backends ≡ some d
        → elig n ≡ fits n d) where
    weight_of-lookup :
        (n : Text) (d : BackendConfig)
        → lookup n bb.backends ≡ some d
        → weight_of bb.backends n ≡ d.weight
    weight_of-lookup n d h = rw (h, weight_of)

    choice_at :
        (b : B) (c : BackendConfig)
        → (select_least_loaded S bb.backends bb.inflight b elig).0 ≡ some c
        → (lookup c.name bb.backends ≡ some c)
          × IsLeast (weight_of bb.backends) (count_of bb.inflight) elig (keys bb.backends) c.name
    choice_at b c h =
        let (name, found, l) = select_least_loaded-IsLeast S bb.backends bb.inflight b elig c h in
        let same : c.name ≡ name = synced.named name c found in
        (
          subst (λ x. lookup x bb.backends ≡ some c) (sym same) found,
          subst (IsLeast (weight_of bb.backends) (count_of bb.inflight) elig (keys bb.backends))
              (sym same) l,
        )

    select_least_loaded-IsChoice :
        (b : B) → IsChoice bb fits (select_least_loaded S bb.backends bb.inflight b elig).0
    select_least_loaded-IsChoice b = record {
      sound = λ c h.
          let (found, l) = choice_at b c h in (found, sym (agree c.name c found) ∙ l.eligible);
      least = λ c d n h hn f w.
          let (found, l) = choice_at b c h in
          rw (weight_of-lookup c.name c found, weight_of-lookup n d hn) at
            (l.least n (lookup→In-keys n d bb.backends hn) (agree n d hn ∙ f)
              (rw (weight_of-lookup n d hn) w));
      least_unweighted = λ c h light n d hn f.
          let (found, l) = choice_at b c h in
          l.least_unweighted
            (λ k km ke.
              let (e, at) = In-keys→lookup k bb.backends km in
              weight_of-lookup k e at ∙ light k e at (sym (agree k e at) ∙ ke))
            n (lookup→In-keys n d bb.backends hn) (agree n d hn ∙ f);
      total = λ n d hn f.
          select_least_loaded-finds S bb.backends bb.inflight b elig n
            (lookup→In-keys n d bb.backends hn) (agree n d hn ∙ f);
    }

  -- `SelectExcluding` on a synced pool: it answers nothing only if every backend of the pool is
  -- excluded; otherwise it answers a backend of the pool that is not excluded, whose in-flight count
  -- per unit of weight is least among the backends of positive weight that are not excluded (a
  -- weight of 0 counts as 1), and whose count is least if all those not excluded have weight 0.
  -- This holds whatever the rotation strategy answers.
  pub select_excluding-IsChoice :
      (exclude : List Text)
      → IsChoice bb (λ n d. not (member n exclude)) (select_excluding S bb exclude).0
  unfolding select_excluding
  select_excluding-IsChoice exclude =
      select_least_loaded-IsChoice (exclude_eligible bb exclude) (λ n d. not (member n exclude))
        (λ n d h. ground arith) bb.bal

  select-IsChoice : IsChoice bb (λ n d. true) (select S bb).0
  unfolding select
  select-IsChoice =
      select_least_loaded-IsChoice (all_eligible bb) (λ n d. true) (λ n d h. ground arith) bb.bal

  no_pool-IsChoice :
      (tag : Text) (exclude : List Text)
      → lookup tag bb.pools ≡ none
      → IsChoice bb (λ n d. has_tag tag d && not (member n exclude)) none
  no_pool-IsChoice tag exclude nope = record {
    sound = λ c h. cc;
    least = λ c d n h. cc;
    least_unweighted = λ c h. cc;
    total = λ n d hn f. absurd (ground (arith, synced.tagged n d tag hn));
  }

  -- `SelectFromTagExcluding` on a synced pool makes the same choice among the backends that carry
  -- the tag and are not excluded, whatever the rotation strategy answers; in particular it finds one
  -- as soon as there is one.
  pub select_from_tag_excluding-IsChoice :
      (tag : Text) (exclude : List Text)
      → IsChoice bb
          (λ n d. has_tag tag d && not (member n exclude))
          (select_from_tag_excluding S bb tag exclude).0
  unfolding select_from_tag_excluding
  select_from_tag_excluding-IsChoice tag exclude = elim (Option-cases (lookup tag bb.pools)) [
    | inl nope ↦ rw (nope, select_from_tag_excluding) (no_pool-IsChoice tag exclude nope)
    | inr (pool, found) ↦
        rw (found, select_from_tag_excluding)
          (select_least_loaded-IsChoice (tag_eligible bb tag exclude)
            (λ n d. has_tag tag d && not (member n exclude)) (λ n d h. ground arith) pool)
  ]
