-- ===== src/Direct/Checks.antt =====
-- Which requests pass the checks of handleProxy (proxy.go).
use llama_proxy.Prelude.{
  is_empty-nil, false-eq_text, ℕ, ◌≤◌, ◌≡◌, ◌≢◌, refl, subst, ◌⊎◌, inl, inr, ◌↔◌, true, false, not,
  ◌&&◌, ◌||◌, Option, none, some, [], ◌++◌, arith, Text, codes, is_empty, eq_text, eq_text_iff,
  eq_text→eq, is_empty→nil, trim_space, ltb, Bool-cases, Option-cases,
}
use llama_proxy.Routing.{should_record_proxy}
use llama_proxy.Direct.{Request, Limits, passes, over, check_request}

-- The size is within the limit, or there is no limit.
abbrev IsWithin : Limits → ℕ → Type 0
IsWithin l n = (l.max_request_bytes ≡ 0) ⊎ n ≤ l.max_request_bytes

over-IsWithin : (l : Limits) (n : ℕ) → (over l (some n) ≡ false) ↔ IsWithin l n
over-IsWithin l n = (
  λ h. elim (Bool-cases (ltb 0 l.max_request_bytes)) [
    | inl some_limit ↦ inr (ground (arith, h, some_limit))
    | inr no_limit ↦ inl (ground (arith, no_limit))
  ],
  λ w. elim w [ inl z ↦ rw z refl | inr le ↦ ground (arith, le) ],
)

-- A request passes these checks.
pub record IsAccepted (l : Limits) (r : Request) : Type 0 where
  pub authorized : (l.api_key ≡ []) ⊎ (trim_space r.authorization ≡ codes "Bearer " ++ l.api_key)
  pub forwards :
      (r.path ≢ codes "/v1/models") ⊎ ((r.method ≢ codes "GET") × (r.method ≢ codes "HEAD"))
  pub recorded : should_record_proxy l.record_paths r.path ≡ true
  pub declared : (n : ℕ) → r.content_length ≡ some n → IsWithin l n
  pub body : (n : ℕ) × (r.body_size ≡ some n) × IsWithin l n

eq_text-false : (a b : Text) → eq_text a b ≡ false → a ≢ b
eq_text-false a b h e = ground (arith, h, (eq_text_iff a b).1 e)

-- What the checks read, as tests.
authorized_iff :
    (l : Limits) (r : Request)
    → ((not (is_empty l.api_key)
          && not (eq_text (trim_space r.authorization) (codes "Bearer " ++ l.api_key)))
        ≡ false)
      ↔ ((l.api_key ≡ []) ⊎ (trim_space r.authorization ≡ codes "Bearer " ++ l.api_key))
authorized_iff l r = (
  λ h. elim (Bool-cases (is_empty l.api_key)) [
    | inl e ↦ inl (is_empty→nil l.api_key e)
    | inr e ↦ inr (
        eq_text→eq (trim_space r.authorization) (codes "Bearer " ++ l.api_key)
          (ground (arith, h, e)))
  ],
  λ o. elim o [
    | inl e ↦ rw (e, is_empty-nil) refl
    | inr e ↦
        ground
          (arith, (eq_text_iff (trim_space r.authorization) (codes "Bearer " ++ l.api_key)).1 e)
  ],
)

forwards_iff :
    (r : Request)
    → ((eq_text r.path (codes "/v1/models")
          && (eq_text r.method (codes "GET") || eq_text r.method (codes "HEAD")))
        ≡ false)
      ↔ ((r.path ≢ codes "/v1/models") ⊎ ((r.method ≢ codes "GET") × (r.method ≢ codes "HEAD")))
forwards_iff r = (
  λ h. elim (Bool-cases (eq_text r.path (codes "/v1/models"))) [
    | inl e ↦ inr (
      eq_text-false r.method (codes "GET") (ground (arith, h, e)),
      eq_text-false r.method (codes "HEAD") (ground (arith, h, e)),
    )
    | inr e ↦ inl (eq_text-false r.path (codes "/v1/models") e)
  ],
  λ o. elim o [
    | inl p ↦ ground (arith, false-eq_text r.path (codes "/v1/models") p)
    | inr (g, hd) ↦
        ground
          (arith, false-eq_text r.method (codes "GET") g, false-eq_text r.method (codes "HEAD") hd)
  ],
)

within_all :
    (l : Limits) (o : Option ℕ) → (over l o ≡ false) ↔ ((n : ℕ) → o ≡ some n → IsWithin l n)
within_all l none = (λ h n e. cc, λ h. refl)
within_all l (some m) = (
  λ h n e. subst (IsWithin l) (cc) ((over-IsWithin l m).0 h),
  λ h. (over-IsWithin l m).1 (h m refl),
)

-- A request passes the checks exactly when it carries the key, is not a listing of the models, has a
-- recorded path, and its declared size and its body are within the limit.
pub check_request-IsAccepted :
    (l : Limits) (r : Request) → (check_request l r ≡ passes) ↔ IsAccepted l r
unfolding check_request
check_request-IsAccepted l r = (
  λ h. record {
    authorized = (authorized_iff l r).0 (ground (arith, h));
    forwards = (forwards_iff r).0 (ground (arith, h));
    recorded = ground (arith, h);
    declared = (within_all l r.content_length).0 (ground (arith, h));
    body = elim (Option-cases r.body_size) [
      | inl unread ↦ ground (arith, h, unread)
      | inr (n, read) ↦ (n, read, (over-IsWithin l n).0 (ground (arith, h, read)))
    ];
  },
  λ acc.
      let (n, read, fits) = acc.body in
      ground (
        arith,
        (authorized_iff l r).1 acc.authorized,
        (forwards_iff r).1 acc.forwards,
        acc.recorded,
        (within_all l r.content_length).1 acc.declared,
        read,
        (over-IsWithin l n).1 fits,
      ),
)
