-- ===== src/Balancer/Choice.antt =====
-- What `selectLeastLoaded` chooses (internal/balancer/balancer.go), whatever the strategy does.
use llama_proxy.Prelude.{
  ℕ, zero, suc, ◌≡◌, refl, Bool, true, false, inl, inr, none, some, List, [], ◌∷◌, arith, Text, Map,
  In, keep_if, In-keep_if, keep_if-In, keys, lookup, In-keys→lookup, sort_texts, sort_texts-In,
  In-sort_texts, member, member→In, Bool-cases, Option-cases, is_empty, is_some,
}
use llama_proxy.Config.{BackendConfig}
use llama_proxy.Balancer.{
  Strategies, best_ratio, best_count, best_load, is_tied, max_tries, rotate, first_tied,
  select_tied, select_least_loaded, weight_of, count_of,
}
use llama_proxy.Balancer.LeastLoaded.{
  ratio_trans, best_ratio-le, best_ratio-AtNode, best_ratio-none, best_count-le, best_count-AtCount,
  best_count-none, IsLeast,
}

module _ (weight load : Text → ℕ) (elig : Text → Bool) where
  is_tied-ratio :
      (names : List Text) (num den : ℕ) (c : Text)
      → best_ratio weight load elig none names ≡ some (num, den)
      → is_tied weight load elig (num, den) c ≡ true
      → IsLeast weight load elig names c
  unfolding is_tied
  is_tied-ratio names num den c h t =
      elim (best_ratio-AtNode weight load elig none names num den h) [
        | inl nope ↦ cc
        | inr (k, m, e, l, w, pos) ↦ record {
          eligible = ground arith;
          least = λ n hn en wn. ground (
            arith,
            best_ratio-le weight load elig none names num den n tt h hn en wn,
            ratio_trans (load c) (weight c) num den (load n) (weight n),
          );
          least_unweighted = λ all n hn en. absurd (omega (arith, all k m e));
        }
      ]

  is_tied-count :
      (names : List Text) (num den : ℕ) (c : Text)
      → best_ratio weight load elig none names ≡ none
      → best_count weight load elig none names ≡ some (num, den)
      → In c names
      → is_tied weight load elig (num, den) c ≡ true
      → IsLeast weight load elig names c
  unfolding is_tied
  is_tied-count names num den c r h m t =
      let e : elig c ≡ true = ground arith in
      let w : weight c ≡ 0 = best_ratio-none weight load elig names c r m e in
      record {
        eligible = e;
        least =
            λ n hn en wn. absurd (omega (arith, best_ratio-none weight load elig names n r hn en));
        least_unweighted = λ all n hn en.
            ground (arith, best_count-le weight load elig none names num den n tt h hn en);
      }

  is_tied-IsLeast :
      (names : List Text) (best : ℕ × ℕ) (c : Text)
      → best_load weight load elig names ≡ some best
      → In c names
      → is_tied weight load elig best c ≡ true
      → IsLeast weight load elig names c
  unfolding best_load
  is_tied-IsLeast names (num, den) c h m t =
      elim (Option-cases (best_ratio weight load elig none names)) [
        | inl r ↦ is_tied-count names num den c r (ground arith) m t
        | inr (q, r) ↦ is_tied-ratio names num den c (ground arith) t
      ]

  -- Some node is tied, if any is eligible.
  best_load-tied :
      (names : List Text) (best : ℕ × ℕ)
      → best_load weight load elig names ≡ some best
      → (c : Text) × In c names × (is_tied weight load elig best c ≡ true)
  unfolding best_load is_tied
  best_load-tied names (num, den) h = elim (Option-cases (best_ratio weight load elig none names)) [
    | inl r ↦ elim (best_count-AtCount weight load elig none names num den (ground arith)) [
      | inl nope ↦ cc
      | inr (k, m, e, l) ↦ (
        k,
        m,
        ground (
          arith,
          best_ratio-none weight load elig names k r m e,
          best_count-le weight load elig none names num den k tt,
        ),
      )
    ]
    | inr (q, r) ↦ elim (best_ratio-AtNode weight load elig none names num den (ground arith)) [
      | inl nope ↦ cc
      | inr (k, m, e, l, w, pos) ↦ (k, m, ground arith)
    ]
  ]

  best_load-none :
      (names : List Text) (n : Text)
      → best_load weight load elig names ≡ none
      → In n names
      → elig n ≡ false
  unfolding best_load
  best_load-none names n h m = best_count-none weight load elig names n (ground arith) m

module _ {B : Type 0} (S : Strategies B) where
  abbrev Chosen : Map BackendConfig → List Text → BackendConfig → Type 0
  Chosen backends tied c = (name : Text) × In name tied × (lookup name backends ≡ some c)

  rotate-Chosen :
      (n : ℕ) (backends : Map BackendConfig) (tied : List Text) (b : B) (c : BackendConfig)
      → (rotate S n backends tied b).0 ≡ some c
      → Chosen backends tied c
  unfolding rotate
  rotate-Chosen zero backends tied b c h = cc
  rotate-Chosen (suc n) backends tied b c h =
      let name = (S.select b).0 in
      let next = (S.select b).1 in
      let later = rotate-Chosen n backends tied next c in
      elim (Bool-cases (is_empty name)) [
        | inl e ↦ absurd (ground arith)
        | inr e ↦ elim (Bool-cases (member name tied)) [
          | inl m ↦ elim (Option-cases (lookup name backends)) [
            | inl nope ↦ later (ground arith)
            | inr (d, found) ↦ (name, member→In name tied m, ground arith)
          ]
          | inr m ↦ later (ground arith)
        ]
      ]

  first_tied-Chosen :
      (backends : Map BackendConfig) (tied : List Text) (c : BackendConfig)
      → first_tied S backends tied ≡ some c
      → Chosen backends tied c
  unfolding first_tied
  first_tied-Chosen backends tied c h = at_head (sort_texts tied) refl
    where
      at_head : (l : List Text) → sort_texts tied ≡ l → Chosen backends tied c
      at_head [] e = cc (e, h)
      at_head (x ∷ xs) e = (x, sort_texts-In x tied (rw e (inl refl)), rw (e, first_tied) at h)

  select_tied-Chosen :
      (backends : Map BackendConfig) (tied : List Text) (b : B) (c : BackendConfig)
      → (select_tied S backends tied b).0 ≡ some c
      → Chosen backends tied c
  unfolding select_tied
  select_tied-Chosen backends tied b c h =
      elim (Option-cases (rotate S (max_tries backends) backends tied b).0) [
        | inl nope ↦ first_tied-Chosen backends tied c (ground arith)
        | inr (d, found) ↦ rotate-Chosen (max_tries backends) backends tied b c (ground arith)
      ]

  -- The chosen backend stands in the pool under an eligible name of least load.
  pub select_least_loaded-IsLeast :
      (backends : Map BackendConfig) (inflight : Map ℕ) (b : B) (elig : Text → Bool)
      (c : BackendConfig)
      → (select_least_loaded S backends inflight b elig).0 ≡ some c
      → (name : Text) × (lookup name backends ≡ some c)
        × IsLeast (weight_of backends) (count_of inflight) elig (keys backends) name
  unfolding select_least_loaded
  select_least_loaded-IsLeast backends inflight b elig c h =
      let ns = keys backends in
      let weight = weight_of backends in
      let load = count_of inflight in
      elim (Option-cases (best_load weight load elig ns)) [
        | inl nope ↦ absurd (ground arith)
        | inr (best, found) ↦
            let tied = keep_if (is_tied weight load elig best) ns in
            let (name, m, at) = select_tied-Chosen backends tied b c (ground arith) in
            let (known, t) = In-keep_if (is_tied weight load elig best) name ns m in
            (name, at, is_tied-IsLeast weight load elig ns best name found known t)
      ]

  first_tied-finds :
      (backends : Map BackendConfig) (tied : List Text) (n : Text)
      → In n tied
      → ((x : Text) → In x tied → In x (keys backends))
      → is_some (first_tied S backends tied) ≡ true
  unfolding first_tied
  first_tied-finds backends tied n m known = at_head (sort_texts tied) refl
    where
      at_head : (l : List Text) → sort_texts tied ≡ l → is_some (first_tied S backends tied) ≡ true
      at_head [] e = absurd (rw e at (In-sort_texts n tied m))
      at_head (x ∷ xs) e =
          let in_tied : In x tied = sort_texts-In x tied (rw e (inl refl)) in
          let (c, found) = In-keys→lookup x backends (known x in_tied) in rw (e, first_tied, found)

  -- Some backend is chosen as soon as one name of the pool is eligible.
  pub select_least_loaded-finds :
      (backends : Map BackendConfig) (inflight : Map ℕ) (b : B) (elig : Text → Bool) (n : Text)
      → In n (keys backends)
      → elig n ≡ true
      → is_some (select_least_loaded S backends inflight b elig).0 ≡ true
  unfolding select_least_loaded select_tied
  select_least_loaded-finds backends inflight b elig n m e =
      let ns = keys backends in
      let weight = weight_of backends in
      let load = count_of inflight in
      elim (Option-cases (best_load weight load elig ns)) [
        | inl nope ↦ absurd (cc (best_load-none weight load elig ns n nope m, e))
        | inr (best, found) ↦
            let tied = keep_if (is_tied weight load elig best) ns in
            let (k, km, kt) = best_load-tied weight load elig ns best found in
            ground (
              arith,
              first_tied-finds backends tied k
                  (keep_if-In (is_tied weight load elig best) k ns km kt)
                  (λ x xm. (In-keep_if (is_tied weight load elig best) x ns xm).0),
              Option-cases (rotate S (max_tries backends) backends tied b).0,
            )
      ]
