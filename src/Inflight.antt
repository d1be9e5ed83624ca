-- ===== src/Inflight.antt =====
-- inflight.go: the requests in flight. The broadcast of the list is left out.
use llama_proxy.Prelude.{
  ℕ, ◌≡◌, ◌↔◌, Bool, ◌&&◌, ◌||◌, none, List, [], ◌∷◌, arith, Text, Map, In, lookup, insert, delete,
  lookup-insert, lookup-delete, leb_text, eq_text, if◌then◌else◌, ltb, ◌==◌, Bool-cases, ◌⊎◌, inl,
  inr,
}

pub record InflightInfo : Type 0 where
  pub id : Text
  pub client_ip : Text
  pub user_agent : Text
  pub method : Text
  pub path : Text
  pub model : Text
  pub backend_url : Text
  pub streaming : Bool
  pub started_at : ℕ

unfoldable pub inflight_add : Map InflightInfo → InflightInfo → Map InflightInfo
inflight_add m info = insert info.id info m

unfoldable pub inflight_remove : Map InflightInfo → Text → Map InflightInfo
inflight_remove m id = delete id m

-- The order of the list: by the start, then by the ID.
abbrev pub precedes : InflightInfo → InflightInfo → Bool
precedes a b =
    ltb a.started_at b.started_at || ((a.started_at == b.started_at) && leb_text a.id b.id)

unfoldable pub insert_info : InflightInfo → List InflightInfo → List InflightInfo
insert_info x [] = x ∷ []
insert_info x (y ∷ ys) =
    let rest = insert_info x ys in if precedes x y then x ∷ y ∷ ys else y ∷ rest

unfoldable pub inflight_list : Map InflightInfo → List InflightInfo
unfolding insert_info
inflight_list [] = []
inflight_list ((id, info) ∷ m) = insert_info info (inflight_list m)

-- The values of the map.
abbrev InValues : InflightInfo → Map InflightInfo → Type 0
InValues x [] = ⊥
InValues x ((id, info) ∷ m) = (info ≡ x) ⊎ InValues x m

insert_info-In :
    (z x : InflightInfo) (xs : List InflightInfo) → In z (insert_info x xs) ↔ ((x ≡ z) ⊎ In z xs)
unfolding insert_info
insert_info-In z x [] = ((λ h. h), (λ h. h))
insert_info-In z x (y ∷ ys) =
    let ih = insert_info-In z x ys in
    elim (Bool-cases (precedes x y)) [
      | inl e ↦ rw e ((λ h. h), (λ h. h))
      | inr o ↦ rw o (
        (λ h. elim h [
          | inl same ↦ inr (inl same)
          | inr later ↦ elim (ih.0 later) [ inl a ↦ inl a | inr b ↦ inr (inr b) ]
        ]),
        (λ h. elim h [
          | inl a ↦ inr (ih.1 (inl a))
          | inr b ↦ elim b [ inl same ↦ inl same | inr later ↦ inr (ih.1 (inr later)) ]
        ]),
      )
    ]

-- The panel's list has exactly the requests in flight.
pub inflight_list-exact :
    (x : InflightInfo) (m : Map InflightInfo) → In x (inflight_list m) ↔ InValues x m
unfolding inflight_list
inflight_list-exact x [] = ((λ h. h), (λ h. h))
inflight_list-exact x ((id, info) ∷ m) =
    let ih = inflight_list-exact x m in
    let here = insert_info-In x info (inflight_list m) in
    (
      (λ h. elim (here.0 h) [ inl a ↦ inl a | inr b ↦ inr (ih.0 b) ]),
      (λ h. elim h [ inl a ↦ here.1 (inl a) | inr b ↦ here.1 (inr (ih.1 b)) ]),
    )

-- A request that was added and removed is gone, and the others are as before.
pub inflight_remove-add :
    (m : Map InflightInfo) (info : InflightInfo) (k : Text)
    → lookup k (inflight_remove (inflight_add m info) info.id)
      ≡ (if eq_text info.id k then none else lookup k m)
unfolding inflight_remove inflight_add
inflight_remove-add m info k =
    ground (arith, lookup-delete info.id k (insert info.id info m), lookup-insert info.id k info m)
