-- ===== src/Prelude/Maps.antt =====
-- Go's `map[string]V` as an association list; the order of the list is one order of iteration.
use mathlib.Core.Path.{◌≡◌, refl}
use mathlib.Core.Logic.{inl, inr}
use mathlib.Core.Bool.{Bool}
use mathlib.Core.Option.{Option, none, some}
use mathlib.Core.List.{List, [], ◌∷◌}
use native.Mathlib.Omega.{arith}
use llama_proxy.Prelude.Tests.{if◌then◌else◌, Bool-cases}
use llama_proxy.Prelude.Lists.{In}
use llama_proxy.Prelude.Texts.{Text, eq_text, eq_text_iff, eq_text→eq}

abbrev pub Map {ℓ} : Type ℓ → Type ℓ
Map V = List (Text × V)

module _ {ℓ} {V : Type ℓ} where
  unfoldable pub lookup : Text → Map V → Option V
  lookup k [] = none
  lookup k ((j, v) ∷ m) = if eq_text j k then some v else lookup k m

  unfoldable pub insert : Text → V → Map V → Map V
  insert k v [] = (k, v) ∷ []
  insert k v ((j, w) ∷ m) = if eq_text j k then (k, v) ∷ m else (j, w) ∷ insert k v m

  -- Go's `delete`.
  unfoldable pub delete : Text → Map V → Map V
  delete k [] = []
  delete k ((j, w) ∷ m) = if eq_text j k then delete k m else (j, w) ∷ delete k m

  -- Keep the entries that pass a test.
  unfoldable pub retain : (Text → V → Bool) → Map V → Map V
  retain p [] = []
  retain p ((j, w) ∷ m) = let rest = retain p m in if p j w then (j, w) ∷ rest else rest

  unfoldable pub keys : Map V → List Text
  keys [] = []
  keys ((j, w) ∷ m) = j ∷ keys m

  pub lookup-insert :
      (k j : Text) (v : V) (m : Map V)
      → lookup j (insert k v m) ≡ (if eq_text k j then some v else lookup j m)
  unfolding lookup insert
  lookup-insert k j v [] = refl
  lookup-insert k j v ((i, w) ∷ m) =
      ground (arith, eq_text_iff k j, eq_text_iff i k, eq_text_iff i j, lookup-insert k j v m)

  pub lookup-delete :
      (k j : Text) (m : Map V) → lookup j (delete k m) ≡ (if eq_text k j then none else lookup j m)
  unfolding lookup delete
  lookup-delete k j [] = ground arith
  lookup-delete k j ((i, w) ∷ m) =
      ground (arith, eq_text_iff k j, eq_text_iff i k, eq_text_iff i j, lookup-delete k j m)

  -- A test on keys alone.
  pub lookup-retain :
      (p : Text → Bool) (j : Text) (m : Map V)
      → lookup j (retain (λ k _. p k) m) ≡ (if p j then lookup j m else none)
  unfolding lookup retain
  lookup-retain p j [] = ground arith
  lookup-retain p j ((i, w) ∷ m) = ground (arith, eq_text_iff i j, lookup-retain p j m)

  pub lookup→In-keys : (k : Text) (v : V) (m : Map V) → lookup k m ≡ some v → In k (keys m)
  unfolding lookup keys
  lookup→In-keys k v [] h = cc
  lookup→In-keys k v ((j, w) ∷ m) h = ground (arith, eq_text→eq j k, lookup→In-keys k v m)

  pub In-keys→lookup : (k : Text) (m : Map V) → In k (keys m) → (v : V) × (lookup k m ≡ some v)
  unfolding lookup keys
  In-keys→lookup k [] h = absurd h
  In-keys→lookup k ((j, w) ∷ m) (inl e) = (w, ground (arith, eq_text_iff j k))
  In-keys→lookup k ((j, w) ∷ m) (inr h) = elim (Bool-cases (eq_text j k)) [
    | inl e ↦ (w, rw e refl)
    | inr e ↦ let (v, p) = In-keys→lookup k m h in (v, rw e p)
  ]

pub lookup→In : {V : Type 0} (k : Text) (v : V) (m : Map V) → lookup k m ≡ some v → In (k, v) m
unfolding lookup
lookup→In k v [] h = cc
lookup→In k v ((j, w) ∷ m) h = elim (Bool-cases (eq_text j k)) [
  | inl e ↦ inl (ground (arith, eq_text→eq j k))
  | inr e ↦ inr (lookup→In k v m (ground arith))
]
