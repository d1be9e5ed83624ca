-- ===== src/Routing/Matching.antt =====
-- Which path of a list is matched (proxy.go).
use llama_proxy.Prelude.{
  ◌≡◌, refl, ap, ◌⊎◌, inl, inr, ◌↔◌, true, false, List, [], ◌∷◌, ◌++◌, arith, Text, In, eq_text,
  eq_text_iff, is_empty, has_prefix, Bool-cases,
}
use llama_proxy.Routing.{trim_slashes, path_in, path_matches, should_record_proxy}

-- An item of the list that covers the path: itself, or a folder above it.
pub record IsCovered (path : Text) (items : List Text) : Type 0 where
  pub item : Text
  pub listed : In item items
  pub named : is_empty (trim_slashes item) ≡ false
  pub covers :
      (trim_slashes path ≡ trim_slashes item)
      ⊎ (has_prefix (trim_slashes path) (trim_slashes item ++ 47 ∷ []) ≡ true)

path_in-IsCovered :
    (path : Text) (items : List Text)
    → path_in (trim_slashes path) items ≡ true
    → IsCovered path items
unfolding path_in
path_in-IsCovered path [] h = cc
path_in-IsCovered path (item ∷ items) h = elim (Bool-cases (is_empty (trim_slashes item))) [
  | inl bare ↦ later (path_in-IsCovered path items (rw (bare, path_in) at h))
  | inr named ↦ elim (Bool-cases (eq_text (trim_slashes path) (trim_slashes item))) [
    | inl same ↦ record {
      item = item;
      listed = inl refl;
      named = named;
      covers = inl (ground (arith, eq_text_iff (trim_slashes path) (trim_slashes item), same));
    }
    | inr other ↦
        elim (Bool-cases (has_prefix (trim_slashes path) (trim_slashes item ++ 47 ∷ []))) [
          | inl under ↦ record { item = item; listed = inl refl; named = named; covers = inr under }
          | inr apart ↦
              later (path_in-IsCovered path items (rw (named, other, apart, path_in) at h))
        ]
  ]
]
  where
    later : IsCovered path items → IsCovered path (item ∷ items)
    later c = record { item = c.item; listed = inr c.listed; named = c.named; covers = c.covers }

IsCovered-path_in :
    (path : Text) (items : List Text) (item : Text)
    → In item items
    → is_empty (trim_slashes item) ≡ false
    → (trim_slashes path ≡ trim_slashes item)
      ⊎ (has_prefix (trim_slashes path) (trim_slashes item ++ 47 ∷ []) ≡ true)
    → path_in (trim_slashes path) items ≡ true
unfolding path_in
IsCovered-path_in path [] item m named covers = absurd m
IsCovered-path_in path (i ∷ items) item (inl e) named covers = ground (
  arith,
  ap trim_slashes e,
  named,
  covers,
  eq_text_iff (trim_slashes path) (trim_slashes i),
  ap (λ x. has_prefix (trim_slashes path) (trim_slashes x ++ 47 ∷ [])) e,
  ap (λ x. is_empty (trim_slashes x)) e,
)
IsCovered-path_in path (i ∷ items) item (inr m) named covers =
    ground (arith, IsCovered-path_in path items item m named covers)

-- A path other than "/" is forwarded exactly when, without its outer slashes, it is not empty and is
-- an item of the list, or lies under one, where items lose their outer slashes and empty ones do not
-- count.
pub should_record_proxy-exact :
    (record_paths : List Text) (path : Text)
    → (should_record_proxy record_paths path ≡ true) ↔ (
        (eq_text path (47 ∷ []) ≡ false)
        × (is_empty (trim_slashes path) ≡ false)
        × IsCovered path record_paths)
unfolding should_record_proxy path_matches
should_record_proxy-exact record_paths path = (
  λ h. (
    ground (arith, h),
    ground (arith, h),
    path_in-IsCovered path record_paths (ground (arith, h)),
  ),
  λ p. ground (
    arith,
    p.0,
    p.1,
    IsCovered-path_in path record_paths p.2.item p.2.listed p.2.named p.2.covers,
  ),
)
