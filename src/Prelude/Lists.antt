-- ===== src/Prelude/Lists.antt =====
-- Lists measured and indexed by native numbers, and predicates on lists by recursion.
use Prim.Native.Nat.{ℕ, zero, suc, ◌+◌, min}
use mathlib.Core.Path.{◌≡◌, sym, ap, ◌∙◌}
use mathlib.Core.Logic.{◌⊎◌, inl, inr}
use mathlib.Core.Bool.{Bool, true}
use mathlib.Core.List.{List, [], ◌∷◌, ◌++◌}
use native.Mathlib.Omega.{arith}
use llama_proxy.Prelude.Tests.{if◌then◌else◌, Bool-cases}

-- `x` occurs in the list.
abbrev pub In : {A : Type 0} → A → List A → Type 0
In x [] = ⊥
In x (y ∷ ys) = (y ≡ x) ⊎ In x ys

-- No item twice.
abbrev pub Distinct : {A : Type 0} → List A → Type 0
Distinct [] = Unit
Distinct (x ∷ xs) = (¬ In x xs) × Distinct xs

module _ {ℓ} {A : Type ℓ} where
  abbrev pub length : List A → ℕ
  length [] = 0
  length (x ∷ xs) = suc (length xs)

  abbrev pub take : ℕ → List A → List A
  take zero xs = []
  take (suc n) [] = []
  take (suc n) (x ∷ xs) = x ∷ take n xs

  abbrev pub drop : ℕ → List A → List A
  drop zero xs = xs
  drop (suc n) [] = []
  drop (suc n) (x ∷ xs) = drop n xs

  abbrev pub All {κ} : (A → Type κ) → List A → Type κ
  All P [] = Unit
  All P (x ∷ xs) = P x × All P xs

  -- The items that pass a test, in order.
  unfoldable pub keep_if : (A → Bool) → List A → List A
  keep_if p [] = []
  keep_if p (x ∷ xs) = let rest = keep_if p xs in if p x then x ∷ rest else rest

  pub length-append : (xs ys : List A) → length (xs ++ ys) ≡ length xs + length ys
  length-append [] ys = omega arith
  length-append (x ∷ xs) ys = omega (arith, length-append xs ys)

  pub length-take : (n : ℕ) (xs : List A) → length (take n xs) ≡ min n (length xs)
  length-take zero xs = omega arith
  length-take (suc n) [] = omega arith
  length-take (suc n) (x ∷ xs) = omega (arith, length-take n xs)

module _ {A : Type 0} (p : A → Bool) where
  pub In-keep_if : (x : A) (xs : List A) → In x (keep_if p xs) → In x xs × (p x ≡ true)
  unfolding keep_if
  In-keep_if x [] h = absurd h
  In-keep_if x (y ∷ ys) h = elim (Bool-cases (p y)) [
    | inl e ↦ elim (rw (e, keep_if) at h) [
      | inl same ↦ (inl same, rw (ap p same) at e)
      | inr later ↦ let (m, t) = In-keep_if x ys later in (inr m, t)
    ]
    | inr e ↦ let (m, t) = In-keep_if x ys (rw (e, keep_if) at h) in (inr m, t)
  ]

  pub keep_if-In : (x : A) (xs : List A) → In x xs → p x ≡ true → In x (keep_if p xs)
  unfolding keep_if
  keep_if-In x [] h t = absurd h
  keep_if-In x (y ∷ ys) (inl same) t = rw (ap p same ∙ t) (inl same)
  keep_if-In x (y ∷ ys) (inr later) t = elim (Bool-cases (p y)) [
    | inl e ↦ rw e (inr (keep_if-In x ys later t))
    | inr e ↦ rw e (keep_if-In x ys later t)
  ]

module _ {A : Type 0} where
  pub In-last : (x y : A) (xs : List A) → In x (xs ++ y ∷ []) → (y ≡ x) ⊎ In x xs
  In-last x y [] (inl e) = inl e
  In-last x y [] (inr bad) = absurd bad
  In-last x y (z ∷ zs) (inl e) = inr (inl e)
  In-last x y (z ∷ zs) (inr m) = elim (In-last x y zs m) [ inl e ↦ inl e | inr k ↦ inr (inr k) ]

  pub last-In : (x y : A) (xs : List A) → (y ≡ x) ⊎ In x xs → In x (xs ++ y ∷ [])
  last-In x y [] (inl e) = inl e
  last-In x y [] (inr bad) = absurd bad
  last-In x y (z ∷ zs) (inl e) = inr (last-In x y zs (inl e))
  last-In x y (z ∷ zs) (inr (inl e)) = inl e
  last-In x y (z ∷ zs) (inr (inr m)) = inr (last-In x y zs (inr m))

  pub Distinct-last : (y : A) (xs : List A) → Distinct xs → ¬ In y xs → Distinct (xs ++ y ∷ [])
  Distinct-last y [] d fresh = ((λ bad. bad), tt)
  Distinct-last y (z ∷ zs) (n, d) fresh = (
    (λ m. elim (In-last z y zs m) [ inl e ↦ fresh (inl (sym e)) | inr k ↦ n k ]),
    Distinct-last y zs d (λ m. fresh (inr m)),
  )

  pub In-append : (x : A) (xs ys : List A) → In x (xs ++ ys) → In x xs ⊎ In x ys
  In-append x [] ys m = inr m
  In-append x (y ∷ xs) ys (inl e) = inl (inl e)
  In-append x (y ∷ xs) ys (inr m) = elim (In-append x xs ys m) [
    | inl a ↦ inl (inr a)
    | inr b ↦ inr b
  ]

  pub append-In : (x : A) (xs ys : List A) → In x xs ⊎ In x ys → In x (xs ++ ys)
  append-In x [] ys (inl bad) = absurd bad
  append-In x [] ys (inr m) = m
  append-In x (y ∷ xs) ys (inl (inl e)) = inl e
  append-In x (y ∷ xs) ys (inl (inr m)) = inr (append-In x xs ys (inl m))
  append-In x (y ∷ xs) ys (inr m) = inr (append-In x xs ys (inr m))
