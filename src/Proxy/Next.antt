-- ===== src/Proxy/Next.antt =====
-- The next backend of a request (proxy_backend.go: `nextBalancerCandidate`; proxy.go:
-- `nextBackend`).
use llama_proxy.Prelude.{
  ◌≡◌, refl, ap, subst, inl, inr, Bool, true, false, not, ◌&&◌, Option, none, some, List, arith,
  Text, In, keys, lookup, member, lookup→In-keys, Bool-cases, Option-cases, is_some, some-injective,
}
use llama_proxy.Config.{BackendConfig}
use llama_proxy.Balancer.{
  Strategies, Balancer, has_tag, select_excluding, select_from_tag_excluding,
}
use llama_proxy.Balancer.Sync.{
  IsSynced, select_excluding-IsSynced, select_from_tag_excluding-IsSynced,
}
use llama_proxy.Balancer.Selection.{
  IsChoice, select_excluding-IsChoice, select_from_tag_excluding-IsChoice,
}
use llama_proxy.Proxy.{
  Candidate, Source, no_failover, whole_pool, tag_pool, next_backend, candidate_key, candidate_name,
  candidate_of, candidate,
}

-- A backend that the source of a request may answer.
unfoldable pub in_source : {B : Type 0} → Source → Balancer B → Text → Bool
in_source no_failover bb n = false
in_source whole_pool bb n = is_some (lookup n bb.backends)
in_source (tag_pool tag) bb n = elim (lookup n bb.backends) [
  | none ↦ false
  | some b ↦ has_tag tag b
]

pub in_source-backends :
    {B : Type 0}
    → (source : Source) (a b : Balancer B) (n : Text) → a.backends ≡ b.backends
    → in_source source a n ≡ in_source source b n
unfolding in_source
in_source-backends no_failover a b n same = refl
in_source-backends whole_pool a b n same = rw same refl
in_source-backends (tag_pool tag) a b n same =
    ap (λ m. elim (lookup n m) [ none ↦ false | some c ↦ has_tag tag c ]) same

module _ {B : Type 0} (S : Strategies B) where
  pub candidate-some :
      (r : Option BackendConfig) (nb : Candidate)
      → candidate r ≡ some nb
      → (c : BackendConfig) × (r ≡ some c) × (candidate_of c ≡ nb)
  candidate-some none nb h = cc
  candidate-some (some c) nb h = (c, refl, some-injective (candidate_of c) nb h)

  candidate-none : (r : Option BackendConfig) → candidate r ≡ none → r ≡ none
  candidate-none none h = refl
  candidate-none (some c) h = cc

  -- What the loop needs of the next backend: it is of the pool and was not tried.
  abbrev pub IsNew : Balancer B → List Text → Candidate → Type 0
  IsNew bb tried nb =
      (candidate_name nb ≡ candidate_key nb)
      × In (candidate_key nb) (keys bb.backends)
      × (member (candidate_key nb) tried ≡ false)

  choice-IsNew :
      (bb : Balancer B) (tried : List Text) (fits : Text → BackendConfig → Bool)
      → (r : Option BackendConfig) (nb : Candidate) → IsChoice bb fits r
      → ((n : Text) (d : BackendConfig) → fits n d ≡ true → member n tried ≡ false)
      → candidate r ≡ some nb
      → IsNew bb tried nb
  unfolding candidate_name candidate_key
  choice-IsNew bb tried fits r nb choice fresh h =
      let (c, found, same) = candidate-some r nb h in
      let (at, fit) = choice.sound c found in
      subst (IsNew bb tried) same (refl, lookup→In-keys c.name c bb.backends at, fresh c.name c fit)

  pub next_backend-IsNew :
      (source : Source) (bb : Balancer B) (tried : List Text) (nb : Candidate)
      → IsSynced bb
      → (next_backend S source bb tried).0 ≡ some nb
      → IsNew bb tried nb
  unfolding next_backend
  next_backend-IsNew no_failover bb tried nb v h = cc
  next_backend-IsNew whole_pool bb tried nb v h =
      choice-IsNew bb tried (λ n d. not (member n tried)) (select_excluding S bb tried).0 nb
        (select_excluding-IsChoice S bb v tried) (λ n d fit. ground (arith, fit)) h
  next_backend-IsNew (tag_pool tag) bb tried nb v h =
      choice-IsNew bb tried (λ n d. has_tag tag d && not (member n tried))
        (select_from_tag_excluding S bb tag tried).0 nb
        (select_from_tag_excluding-IsChoice S bb v tag tried) (λ n d fit. ground (arith, fit)) h

  choice-total :
      (bb : Balancer B) (fits : Text → BackendConfig → Bool)
      → (r : Option BackendConfig) (n : Text) (d : BackendConfig) → IsChoice bb fits r
      → candidate r ≡ none
      → lookup n bb.backends ≡ some d
      → fits n d ≡ false
  choice-total bb fits r n d choice h at = elim (Bool-cases (fits n d)) [
    | inl fit ↦ absurd (ground (arith, choice.total n d at fit, candidate-none r h))
    | inr unfit ↦ unfit
  ]

  -- If there is no next backend, all backends of the source were tried.
  pub next_backend-total :
      (source : Source) (bb : Balancer B) (tried : List Text) (n : Text)
      → IsSynced bb
      → (next_backend S source bb tried).0 ≡ none
      → in_source source bb n ≡ true
      → member n tried ≡ true
  unfolding next_backend in_source
  next_backend-total no_failover bb tried n v h within = cc
  next_backend-total whole_pool bb tried n v h within = elim (Option-cases (lookup n bb.backends)) [
    | inl nope ↦ absurd (ground (arith, nope, within))
    | inr (d, at) ↦
        let unfit =
          choice-total bb (λ k c. not (member k tried)) (select_excluding S bb tried).0 n d
            (select_excluding-IsChoice S bb v tried) h at in
        ground (arith, unfit)
  ]
  next_backend-total (tag_pool tag) bb tried n v h within =
      elim (Option-cases (lookup n bb.backends)) [
        | inl nope ↦ absurd (ground (arith, nope, within))
        | inr (d, at) ↦
            let unfit =
              choice-total bb (λ k c. has_tag tag c && not (member k tried))
                (select_from_tag_excluding S bb tag tried).0 n d
                (select_from_tag_excluding-IsChoice S bb v tag tried) h at in
            ground (arith, unfit, at, within)
      ]

  pub next_backend-IsSynced :
      (source : Source) (bb : Balancer B) (tried : List Text)
      → IsSynced bb
      → IsSynced (next_backend S source bb tried).1
  unfolding next_backend
  next_backend-IsSynced no_failover bb tried v = v
  next_backend-IsSynced whole_pool bb tried v = select_excluding-IsSynced S bb tried v
  next_backend-IsSynced (tag_pool tag) bb tried v =
      select_from_tag_excluding-IsSynced S bb tag tried v

  pub next_backend-backends :
      (source : Source) (bb : Balancer B) (tried : List Text)
      → (next_backend S source bb tried).1.backends ≡ bb.backends
  unfolding next_backend select_excluding select_from_tag_excluding
  next_backend-backends no_failover bb tried = refl
  next_backend-backends whole_pool bb tried = refl
  next_backend-backends (tag_pool tag) bb tried = ground arith
