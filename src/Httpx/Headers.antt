-- ===== src/Httpx/Headers.antt =====
-- Which headers of a request are forwarded (internal/httpx/httpx.go).
use llama_proxy.Prelude.{
  codes, member, member→In, In→member, ◌≡◌, refl, ap, ◌∙◌, Bool, true, false, List, [], ◌∷◌, ◌++◌,
  arith, Text, Map, In, Distinct, keys, lookup, lookup-insert, eq_text, eq_text_iff, eq_text_refl,
  if◌then◌else◌, or_else, Bool-cases, inl, inr,
}
use mathlib.Core.List.{append-nil, append_assoc}
use llama_proxy.Httpx.{
  hop_by_hop, is_hop_by_hop_header, add_value, add_values, is_dropped, copy_request_headers,
}

unfoldable pub values_of : Text → Map (List Text) → List Text
values_of k h = or_else [] (lookup k h)

values_of-add_value :
    (k j v : Text) (h : Map (List Text))
    → values_of j (add_value k h v)
      ≡ (if eq_text k j then values_of k h ++ v ∷ [] else values_of j h)
unfolding values_of
values_of-add_value k j v h =
    ground (arith, lookup-insert k j (or_else [] (lookup k h) ++ v ∷ []) h)

values_of-add_values :
    (k j : Text) (h : Map (List Text)) (vs : List Text)
    → values_of j (add_values k h vs) ≡ (if eq_text k j then values_of k h ++ vs else values_of j h)
unfolding add_values
values_of-add_values k j h [] = ground (arith, append-nil (values_of k h), eq_text_iff k j)
values_of-add_values k j h (v ∷ vs) =
    values_of-add_values k j (add_value k h v) vs
    ∙ ground (
      arith,
      values_of-add_value k k v h,
      values_of-add_value k j v h,
      eq_text_refl k,
      append_assoc (values_of k h) (v ∷ []) vs,
    )

-- A header that is not there has no values.
values_of-absent : (k : Text) (h : Map (List Text)) → ¬ In k (keys h) → values_of k h ≡ []
unfolding values_of lookup keys
values_of-absent k [] h = refl
values_of-absent k ((j, vs) ∷ m) h = elim (Bool-cases (eq_text j k)) [
  | inl e ↦ absurd (h (inl ((eq_text_iff j k).0 e)))
  | inr o ↦ rw o (values_of-absent k m (λ later. h (inr later)))
]

values_of-first :
    (k j : Text) (vs : List Text) (h : Map (List Text))
    → values_of j ((k, vs) ∷ h) ≡ (if eq_text k j then vs else values_of j h)
unfolding values_of lookup
values_of-first k j vs h = ground arith

values_of-nil : (k : Text) → values_of k [] ≡ []
unfolding values_of lookup
values_of-nil k = refl

-- The names of the headers of one hop that the proxy does not pass on, in lower case.
abbrev pub omitted_names : List Text
omitted_names =
    codes "connection"
    ∷ codes "proxy-connection"
    ∷ codes "keep-alive"
    ∷ codes "proxy-authenticate"
    ∷ codes "proxy-authorization"
    ∷ codes "te"
    ∷ codes "trailers"
    ∷ codes "transfer-encoding"
    ∷ codes "upgrade"
    ∷ []

module _ (lower : Text → Text) (equal_fold : Text → Text → Bool) where
  copied :
      (dst src : Map (List Text)) (j : Text)
      → Distinct (keys src)
      → values_of j (copy_request_headers lower equal_fold dst src) ≡ (
          if is_dropped lower equal_fold j
          then values_of j dst
          else values_of j dst ++ values_of j src)
  unfolding copy_request_headers keys
  copied dst [] j once = ground (arith, values_of-nil j, append-nil (values_of j dst))
  copied dst ((k, vals) ∷ src) j (new, once) = elim (Bool-cases (is_dropped lower equal_fold k)) [
    | inl dropped ↦ rw dropped (copied dst src j once ∙ without dropped)
    | inr kept ↦ rw kept (copied (add_values k dst vals) src j once ∙ with_values kept)
  ]
    where
      without :
          is_dropped lower equal_fold k ≡ true
          → (if is_dropped lower equal_fold j
              then values_of j dst
              else values_of j dst ++ values_of j src)
            ≡ (if is_dropped lower equal_fold j
                then values_of j dst
                else values_of j dst ++ values_of j ((k, vals) ∷ src))
      without dropped = elim (Bool-cases (eq_text k j)) [
        | inl e ↦
            let same = ap (is_dropped lower equal_fold) ((eq_text_iff k j).0 e) in
            ground (arith, same, dropped)
        | inr o ↦ ground (arith, o, values_of-first k j vals src)
      ]

      with_values :
          is_dropped lower equal_fold k ≡ false
          → (if is_dropped lower equal_fold j
              then values_of j (add_values k dst vals)
              else values_of j (add_values k dst vals) ++ values_of j src)
            ≡ (if is_dropped lower equal_fold j
                then values_of j dst
                else values_of j dst ++ values_of j ((k, vals) ∷ src))
      with_values kept = elim (Bool-cases (eq_text k j)) [
        | inl e ↦
            let same = (eq_text_iff k j).0 e in
            let there = ap (is_dropped lower equal_fold) same in
            let absent = values_of-absent k src new in
            ground (
              arith,
              e,
              same,
              there,
              kept,
              absent,
              ap (λ x. values_of x src) same,
              ap (λ x. values_of x dst) same,
              values_of-add_values k j dst vals,
              values_of-first k j vals src,
              append-nil (values_of j dst ++ vals),
            )
        | inr o ↦ ground (arith, o, values_of-add_values k j dst vals, values_of-first k j vals src)
      ]

  -- A name that is not copied: one of these nine, whatever its case, Host or Content-Length.
  pub data IsOmitted (j : Text) : Type 0 where
    of_hop : In (lower j) omitted_names → IsOmitted j
    of_host : equal_fold j (codes "Host") ≡ true → IsOmitted j
    of_length : equal_fold j (codes "Content-Length") ≡ true → IsOmitted j

  is_dropped-IsOmitted : (j : Text) → is_dropped lower equal_fold j ≡ true → IsOmitted j
  unfolding is_dropped is_hop_by_hop_header
  is_dropped-IsOmitted j h = elim (Bool-cases (member (lower j) hop_by_hop)) [
    | inl hop ↦ of_hop (member→In (lower j) hop_by_hop hop)
    | inr no_hop ↦ elim (Bool-cases (equal_fold j (codes "Host"))) [
      | inl host ↦ of_host host
      | inr no_host ↦ of_length (ground (arith, h, no_hop, no_host))
    ]
  ]

  IsOmitted-is_dropped : (j : Text) → IsOmitted j → is_dropped lower equal_fold j ≡ true
  unfolding is_dropped is_hop_by_hop_header
  IsOmitted-is_dropped j (of_hop m) = ground (arith, In→member (lower j) hop_by_hop m)
  IsOmitted-is_dropped j (of_host h) = ground (arith, h)
  IsOmitted-is_dropped j (of_length h) = ground (arith, h)

  -- `CopyRequestHeaders` into an empty header gives each name the values that the request has for it, in their order,
  -- but none to connection, keep-alive, te, trailers, transfer-encoding, upgrade, proxy-connection, proxy-authenticate
  -- and proxy-authorization, whatever their case, and none to Host and Content-Length.
  pub copy_request_headers-exact :
      (src : Map (List Text)) (j : Text)
      → Distinct (keys src)
      → let out = values_of j (copy_request_headers lower equal_fold [] src) in
        (IsOmitted j → out ≡ []) × ((¬ IsOmitted j) → out ≡ values_of j src)
  unfolding values_of lookup
  copy_request_headers-exact src j once =
      let whole = copied [] src j once in
      (
        λ omitted. ground (arith, whole, IsOmitted-is_dropped j omitted),
        λ sent. elim (Bool-cases (is_dropped lower equal_fold j)) [
          | inl dropped ↦ absurd (sent (is_dropped-IsOmitted j dropped))
          | inr kept ↦ ground (arith, whole, kept)
        ],
      )
