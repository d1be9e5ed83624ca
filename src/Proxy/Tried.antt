-- ===== src/Proxy/Tried.antt =====
-- The names and the numbers of the backends that a request has tried (proxy.go: `tried`,
-- `attempts`).
use llama_proxy.Prelude.{
  ℕ, suc, ◌<◌, ◌≤◌, ◌≡◌, refl, ap, inl, inr, false, not, List, [], ◌∷◌, ◌++◌, arith, Text, In,
  length, keep_if, Map, keys, member, eq_text_iff,
}
use llama_proxy.Proxy.{
  Candidate, Attempt, Reply, unbuilt, refused, answered, candidate_name, attempt_of, names_of,
}

pub names_of-append :
    (done : List Attempt) (a : Attempt) → names_of (done ++ a ∷ []) ≡ names_of done ++ a.name ∷ []
unfolding names_of
names_of-append [] a = refl
names_of-append (b ∷ done) a = ap (λ l. b.name ∷ l) (names_of-append done a)

pub attempt_of-name : (c : Candidate) (r : Reply) → (attempt_of c r).name ≡ candidate_name c
unfolding attempt_of
attempt_of-name c (unbuilt e) = refl
attempt_of-name c (refused e) = refl
attempt_of-name c (answered st b) = refl

-- How many of the names are not tried.
abbrev pub untried : List Text → List Text → ℕ
untried tried ns = length (keep_if (λ n. not (member n tried)) ns)

untried-step : (x : Text) (tried ns : List Text) → untried (x ∷ tried) ns ≤ untried tried ns
unfolding keep_if member
untried-step x tried [] = omega arith
untried-step x tried (n ∷ ns) = ground (arith, untried-step x tried ns)

pub untried-drops :
    (x : Text) (tried ns : List Text)
    → In x ns
    → member x tried ≡ false
    → untried (x ∷ tried) ns < untried tried ns
unfolding keep_if member
untried-drops x tried [] m new = absurd m
untried-drops x tried (n ∷ ns) (inl e) new =
    ground (arith, untried-step x tried ns, ap (λ k. member k tried) e, eq_text_iff x n, e)
untried-drops x tried (n ∷ ns) (inr m) new = ground (arith, untried-drops x tried ns m new)

pub untried_bound : (tried ns : List Text) → untried tried ns ≤ length ns
unfolding keep_if
untried_bound tried [] = omega arith
untried_bound tried (n ∷ ns) = ground (arith, untried_bound tried ns)

pub length-keys : {V : Type 0} → (m : Map V) → length (keys m) ≡ length m
unfolding keys
length-keys [] = refl
length-keys ((k, v) ∷ m) = ap suc (length-keys m)
