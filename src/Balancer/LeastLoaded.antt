-- ===== src/Balancer/LeastLoaded.antt =====
-- The loops of `selectLeastLoaded` (internal/balancer/balancer.go) find a least ratio of load to
-- weight, over any order of the nodes.
use native.Mathlib.Nat.{mul-le-mul_right, le_of_mul-le-mul_right}
use llama_proxy.Prelude.{
  ℕ, ◌*◌, ◌≤◌, ◌<◌, ◌≡◌, ◌≢◌, refl, Bool, true, false, ◌⊎◌, inl, inr, none, some, List, [], ◌∷◌,
  arith, Text, In, if◌then◌else◌, ◌==◌,
}
use llama_proxy.Balancer.{Ratio, best_ratio, best_count}

pub ratio_trans : (a b c d e f : ℕ) → a * d ≤ c * b → c * f ≤ e * d → 0 < d → a * f ≤ e * b
ratio_trans a b c d e f h k pos =
    le_of_mul-le-mul_right {m = a * f} {n = e * b} {k = d}
      (omega (arith, mul-le-mul_right f h, mul-le-mul_right b k)) pos

-- A node's capacity: its weight, and 1 for a node of weight 0.
abbrev pub capacity : ℕ → ℕ
capacity w = if w == 0 then 1 else w

module _ (weight load : Text → ℕ) (elig : Text → Bool) where
  abbrev pub Positive : Ratio → Type 0
  Positive none = Unit {0}
  Positive (some (p, q)) = 0 < q

  -- A start bounds the result.
  best_ratio-start :
      (names : List Text) (p q num den : ℕ)
      → 0 < q
      → best_ratio weight load elig (some (p, q)) names ≡ some (num, den)
      → (0 < den) × (num * q ≤ p * den)
  unfolding best_ratio
  best_ratio-start [] p q num den pos h = ground arith
  best_ratio-start (n ∷ ns) p q num den pos h = ground (
    arith,
    best_ratio-start ns p q num den,
    best_ratio-start ns (load n) (weight n) num den,
    ratio_trans num den (load n) (weight n) p q,
  )

  best_ratio-from :
      (names : List Text) (p q : ℕ) → best_ratio weight load elig (some (p, q)) names ≢ none
  unfolding best_ratio
  best_ratio-from [] p q h = cc
  best_ratio-from (n ∷ ns) p q h =
      ground (arith, best_ratio-from ns p q, best_ratio-from ns (load n) (weight n))

  -- The result is least among the eligible nodes of positive weight.
  pub best_ratio-le :
      (best : Ratio) (names : List Text) (num den : ℕ) (n : Text)
      → Positive best
      → best_ratio weight load elig best names ≡ some (num, den)
      → In n names
      → elig n ≡ true
      → 0 < weight n
      → num * weight n ≤ load n * den
  unfolding best_ratio
  best_ratio-le best [] num den n pos h here e w = absurd here
  best_ratio-le none (k ∷ ks) num den n pos h (inl same) e w =
      ground (arith, best_ratio-start ks (load k) (weight k) num den)
  best_ratio-le (some (p, q)) (k ∷ ks) num den n pos h (inl same) e w = ground (
    arith,
    best_ratio-start ks (load k) (weight k) num den,
    best_ratio-start ks p q num den,
    ratio_trans num den p q (load k) (weight k),
  )
  best_ratio-le none (k ∷ ks) num den n pos h (inr later) e w =
      ground (
        arith,
        best_ratio-le none ks num den n,
        best_ratio-le (some (load k, weight k)) ks num den n,
      )
  best_ratio-le (some (p, q)) (k ∷ ks) num den n pos h (inr later) e w = ground (
    arith,
    best_ratio-le (some (p, q)) ks num den n,
    best_ratio-le (some (load k, weight k)) ks num den n,
  )

  -- A result is the start, or the ratio of a node.
  abbrev pub AtNode : List Text → ℕ → ℕ → Type 0
  AtNode names num den =
      (n : Text) × In n names × (elig n ≡ true) × (load n ≡ num) × (weight n ≡ den) × (0 < den)

  AtNode-later :
      (k : Text) (ks : List Text) (num den : ℕ) → AtNode ks num den → AtNode (k ∷ ks) num den
  AtNode-later k ks num den (n, m, e, l, w, pos) = (n, inr m, e, l, w, pos)

  best_ratio-step :
      (best : Ratio) (k : Text) (ks : List Text) (num den : ℕ)
      → best_ratio weight load elig best (k ∷ ks) ≡ some (num, den)
      → (best_ratio weight load elig best ks ≡ some (num, den))
        ⊎ ((elig k ≡ true)
            × (0 < weight k)
            × (best_ratio weight load elig (some (load k, weight k)) ks ≡ some (num, den)))
  unfolding best_ratio
  best_ratio-step none k ks num den h = ground arith
  best_ratio-step (some (p, q)) k ks num den h = ground arith

  pub best_ratio-AtNode :
      (best : Ratio) (names : List Text) (num den : ℕ)
      → best_ratio weight load elig best names ≡ some (num, den)
      → (best ≡ some (num, den)) ⊎ AtNode names num den
  unfolding best_ratio
  best_ratio-AtNode best [] num den h = inl h
  best_ratio-AtNode best (k ∷ ks) num den h = elim (best_ratio-step best k ks num den h) [
    | inl kept ↦ elim (best_ratio-AtNode best ks num den kept) [
      | inl start ↦ inl start
      | inr at ↦ inr (AtNode-later k ks num den at)
    ]
    | inr (e, w, taken) ↦ elim (best_ratio-AtNode (some (load k, weight k)) ks num den taken) [
      | inl same ↦ inr (k, inl refl, e, ground arith, ground arith, ground arith)
      | inr at ↦ inr (AtNode-later k ks num den at)
    ]
  ]

  -- Without a result no eligible node has a positive weight.
  pub best_ratio-none :
      (names : List Text) (n : Text)
      → best_ratio weight load elig none names ≡ none
      → In n names
      → elig n ≡ true
      → weight n ≡ 0
  unfolding best_ratio
  best_ratio-none [] n h here e = absurd here
  best_ratio-none (k ∷ ks) n h (inl same) e = ground (arith, best_ratio-from ks (load k) (weight k))
  best_ratio-none (k ∷ ks) n h (inr later) e =
      ground (arith, best_ratio-none ks n, best_ratio-from ks (load k) (weight k))

  best_count-start :
      (names : List Text) (p num den : ℕ)
      → best_count weight load elig (some (p, 1)) names ≡ some (num, den)
      → (den ≡ 1) × (num ≤ p)
  unfolding best_count
  best_count-start [] p num den h = ground arith
  best_count-start (n ∷ ns) p num den h =
      ground (arith, best_count-start ns p num den, best_count-start ns (load n) num den)

  best_count-from :
      (names : List Text) (p q : ℕ) → best_count weight load elig (some (p, q)) names ≢ none
  unfolding best_count
  best_count-from [] p q h = cc
  best_count-from (n ∷ ns) p q h =
      ground (arith, best_count-from ns p q, best_count-from ns (load n) 1)

  -- The second loop: a start, if any, counts with denominator 1.
  abbrev pub Plain : Ratio → Type 0
  Plain none = Unit {0}
  Plain (some (p, q)) = q ≡ 1

  pub best_count-le :
      (best : Ratio) (names : List Text) (num den : ℕ) (n : Text)
      → Plain best
      → best_count weight load elig best names ≡ some (num, den)
      → In n names
      → elig n ≡ true
      → (den ≡ 1) × (num ≤ load n)
  unfolding best_count
  best_count-le best [] num den n pos h here e = absurd here
  best_count-le none (k ∷ ks) num den n pos h (inl same) e =
      ground (arith, best_count-start ks (load k) num den)
  best_count-le (some (p, q)) (k ∷ ks) num den n pos h (inl same) e =
      ground (arith, best_count-start ks (load k) num den, best_count-start ks p num den)
  best_count-le none (k ∷ ks) num den n pos h (inr later) e =
      ground (arith, best_count-le none ks num den n, best_count-le (some (load k, 1)) ks num den n)
  best_count-le (some (p, q)) (k ∷ ks) num den n pos h (inr later) e = ground (
    arith,
    best_count-le (some (p, q)) ks num den n,
    best_count-le (some (load k, 1)) ks num den n,
  )

  abbrev pub AtCount : List Text → ℕ → Type 0
  AtCount names num = (n : Text) × In n names × (elig n ≡ true) × (load n ≡ num)

  AtCount-later : (k : Text) (ks : List Text) (num : ℕ) → AtCount ks num → AtCount (k ∷ ks) num
  AtCount-later k ks num (n, m, e, l) = (n, inr m, e, l)

  best_count-step :
      (best : Ratio) (k : Text) (ks : List Text) (num den : ℕ)
      → best_count weight load elig best (k ∷ ks) ≡ some (num, den)
      → (best_count weight load elig best ks ≡ some (num, den))
        ⊎ ((elig k ≡ true) × (best_count weight load elig (some (load k, 1)) ks ≡ some (num, den)))
  unfolding best_count
  best_count-step none k ks num den h = ground arith
  best_count-step (some (p, q)) k ks num den h = ground arith

  pub best_count-AtCount :
      (best : Ratio) (names : List Text) (num den : ℕ)
      → best_count weight load elig best names ≡ some (num, den)
      → (best ≡ some (num, den)) ⊎ AtCount names num
  unfolding best_count
  best_count-AtCount best [] num den h = inl h
  best_count-AtCount best (k ∷ ks) num den h = elim (best_count-step best k ks num den h) [
    | inl kept ↦ elim (best_count-AtCount best ks num den kept) [
      | inl start ↦ inl start
      | inr at ↦ inr (AtCount-later k ks num at)
    ]
    | inr (e, taken) ↦ elim (best_count-AtCount (some (load k, 1)) ks num den taken) [
      | inl same ↦ inr (k, inl refl, e, ground arith)
      | inr at ↦ inr (AtCount-later k ks num at)
    ]
  ]

  pub best_count-none :
      (names : List Text) (n : Text)
      → best_count weight load elig none names ≡ none
      → In n names
      → elig n ≡ false
  unfolding best_count
  best_count-none [] n h here = absurd here
  best_count-none (k ∷ ks) n h (inl same) = ground (arith, best_count-from ks (load k) 1)
  best_count-none (k ∷ ks) n h (inr later) =
      ground (arith, best_count-none ks n, best_count-from ks (load k) 1)

  -- The name `c` has a least ratio of load to capacity among the eligible nodes of positive weight,
  -- and a least load among all eligible nodes if none has a positive weight.
  pub record IsLeast (names : List Text) (c : Text) : Type 0 where
    pub eligible : elig c ≡ true
    pub least :
        (n : Text)
        → In n names
        → elig n ≡ true
        → 0 < weight n
        → load c * weight n ≤ load n * capacity (weight c)
    pub least_unweighted :
        ((n : Text) → In n names → elig n ≡ true → weight n ≡ 0)
        → (n : Text) → In n names
        → elig n ≡ true
        → load c ≤ load n
