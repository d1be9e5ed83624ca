-- ===== src/Capture.antt =====
-- internal/meta/meta.go: `LimitedBuffer`, which keeps the beginning of a response. A `max` below 0
-- is tested like 0.
use llama_proxy.Prelude.{
  ℕ, zero, suc, ◌-◌, ◌≤◌, ◌≡◌, refl, sym, ap, ◌∙◌, inl, inr, List, [], ◌∷◌, ◌++◌, arith, length,
  take, length-take, if◌then◌else◌, ltb, ◌==◌, Bool-cases,
}

pub record LimitedBuffer : Type 0 where
  pub max : ℕ
  pub buf : List ℕ

unfoldable pub new_limited_buffer : ℕ → LimitedBuffer
new_limited_buffer max = record { max = max; buf = [] }

unfoldable pub write : LimitedBuffer → List ℕ → LimitedBuffer
write lb p =
    let remaining = lb.max - length lb.buf in
    if lb.max == 0
    then record lb { buf = lb.buf ++ p }
    else if remaining == 0
    then lb
    else if ltb remaining (length p)
    then record lb { buf = lb.buf ++ take remaining p }
    else record lb { buf = lb.buf ++ p }

unfoldable pub write_all : LimitedBuffer → List (List ℕ) → LimitedBuffer
write_all lb [] = lb
write_all lb (p ∷ ps) = write_all (write lb p) ps

-- The chunks in one list.
unfoldable pub joined : List (List ℕ) → List ℕ
joined [] = []
joined (p ∷ ps) = p ++ joined ps

-- What a buffer of the size holds of a text: all of it for size 0.
abbrev pub kept : ℕ → List ℕ → List ℕ
kept max s = if max == 0 then s else take max s

append-nil : (xs : List ℕ) → xs ++ [] ≡ xs
append-nil [] = refl
append-nil (x ∷ xs) = ap (λ l. x ∷ l) (append-nil xs)

append_assoc : (xs ys zs : List ℕ) → (xs ++ ys) ++ zs ≡ xs ++ (ys ++ zs)
append_assoc [] ys zs = refl
append_assoc (x ∷ xs) ys zs = ap (λ l. x ∷ l) (append_assoc xs ys zs)

take-append : (n : ℕ) (xs ys : List ℕ) → take n (xs ++ ys) ≡ take n xs ++ take (n - length xs) ys
take-append zero [] ys = refl
take-append zero (x ∷ xs) ys =
    let none_left : 0 ≡ 0 - length (x ∷ xs) = omega arith in ap (λ k. take k ys) none_left
take-append (suc n) [] ys =
    let whole : suc n ≡ suc n - length {A = ℕ} [] = omega arith in ap (λ k. take k ys) whole
take-append (suc n) (x ∷ xs) ys =
    let same : n - length xs ≡ suc n - length (x ∷ xs) = omega arith in
    ap (λ l. x ∷ l) (take-append n xs ys ∙ ap (λ k. take n xs ++ take k ys) same)

pub take-none : (n : ℕ) → ◌≡◌ {A = List ℕ} [] (take n [])
take-none zero = refl
take-none (suc n) = refl

take-long : (n : ℕ) (xs : List ℕ) → length xs ≤ n → take n xs ≡ xs
take-long zero [] h = refl
take-long zero (x ∷ xs) h = absurd (omega (arith, h))
take-long (suc n) [] h = refl
take-long (suc n) (x ∷ xs) h = ap (λ l. x ∷ l) (take-long n xs (omega (arith, h)))

pub write-max : (lb : LimitedBuffer) (p : List ℕ) → (write lb p).max ≡ lb.max
unfolding write
write-max lb p = ground arith

room : (max : ℕ) (seen : List ℕ) → max - length (take max seen) ≡ max - length seen
room max seen = omega (arith, length-take max seen)

-- A buffer with a limit, after one more chunk.
extended :
    (max : ℕ) (buf seen p : List ℕ)
    → buf ≡ take max seen
    → take max (seen ++ p) ≡ buf ++ take (max - length buf) p
extended max buf seen p h =
    take-append max seen p
    ∙ ap (λ k. take max seen ++ take k p) (sym (room max seen))
    ∙ ap (λ b. b ++ take (max - length b) p) (sym h)

pub write-kept :
    (lb : LimitedBuffer) (seen p : List ℕ)
    → lb.buf ≡ kept lb.max seen
    → (write lb p).buf ≡ kept lb.max (seen ++ p)
unfolding write
write-kept lb seen p h = elim (Bool-cases (lb.max == 0)) [
  | inl free ↦ rw free (ap (λ b. b ++ p) (rw free at h))
  | inr limited ↦
      let full = extended lb.max lb.buf seen p (rw limited at h) in
      let remaining = lb.max - length lb.buf in
      elim (Bool-cases (remaining == 0)) [
        | inl over ↦
            let zero_left : remaining ≡ 0 = ground (arith, over) in
            rw (limited, over)
              (sym (full ∙ ap (λ k. lb.buf ++ take k p) zero_left ∙ append-nil lb.buf))
        | inr more ↦ elim (Bool-cases (ltb remaining (length p))) [
          | inl cut ↦ rw (limited, more, cut) (sym full)
          | inr fits ↦
              rw (limited, more, fits)
                (sym (full ∙ ap (λ l. lb.buf ++ l) (take-long remaining p (ground (arith, fits)))))
        ]
      ]
]

write_all-kept :
    (lb : LimitedBuffer) (seen : List ℕ) (ps : List (List ℕ))
    → lb.buf ≡ kept lb.max seen
    → (write_all lb ps).buf ≡ kept lb.max (seen ++ joined ps)
unfolding write_all joined
write_all-kept lb seen [] h = h ∙ ap (kept lb.max) (sym (append-nil seen))
write_all-kept lb seen (p ∷ ps) h =
    let next =
      write_all-kept (write lb p) (seen ++ p) ps
        (kept_at (write-max lb p) (write-kept lb seen p h)) in
    next
    ∙ ap (λ m. kept m ((seen ++ p) ++ joined ps)) (write-max lb p)
    ∙ ap (kept lb.max) (append_assoc seen p (joined ps))
  where
    kept_at :
        {m : ℕ}
        → m ≡ lb.max
        → (write lb p).buf ≡ kept lb.max (seen ++ p)
        → (write lb p).buf ≡ kept m (seen ++ p)
    kept_at e k = k ∙ ap (λ x. kept x (seen ++ p)) (sym e)

-- However a response is cut into chunks, the buffer holds its first `max` bytes, or all of it for a
-- `max` of 0.
pub write_all-new_limited_buffer :
    (max : ℕ) (ps : List (List ℕ))
    → (write_all (new_limited_buffer max) ps).buf ≡ kept max (joined ps)
unfolding new_limited_buffer
write_all-new_limited_buffer max ps = write_all-kept (new_limited_buffer max) [] ps empty_kept
  where
    empty_kept : ◌≡◌ {A = List ℕ} [] (kept max [])
    empty_kept = elim (Bool-cases (max == 0)) [ inl a ↦ rw a refl | inr b ↦ rw b (take-none max) ]
