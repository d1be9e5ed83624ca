-- ===== src/Scheduler/Channels.antt =====
-- The ready channels of the slots (internal/scheduler: `markSlotReady`, `launchSlot`, `suspendSlot`,
-- `reap`, `stopAll`). Closing a closed Go channel panics; a channel that is made takes the number
-- `next_ch`.
use llama_proxy.Prelude.{
  ℕ, ◌+◌, ◌<◌, ◌≡◌, ◌≢◌, sym, ap, subst, ◌∙◌, inl, inr, true, false, some, List, ◌∷◌, arith, Text,
  Map, In, Distinct, lookup, insert, lookup-insert, eq_text, eq_text_iff, Bool-cases,
  some-injective, ◌⊎◌,
}
use llama_proxy.Scheduler.{Slot}

-- Channels are numbered in the order they are made; no two slots share one; a slot that does not
-- note its channel as closed has an open one; and no channel was closed twice.
pub record IsChannelSafe (procs : Map Slot) (next : ℕ) (closed : List ℕ) : Type 0 where
  pub made : (id : Text) (sl : Slot) → lookup id procs ≡ some sl → sl.ready_ch < next
  pub apart :
      (i j : Text) (a b : Slot)
      → lookup i procs ≡ some a
      → lookup j procs ≡ some b
      → a.ready_ch ≡ b.ready_ch
      → i ≡ j
  pub still_open :
      (id : Text) (sl : Slot)
      → lookup id procs ≡ some sl
      → sl.ready_ch_closed ≡ false
      → ¬ In sl.ready_ch closed
  pub closed_made : (c : ℕ) → In c closed → c < next
  pub once : Distinct closed

module _ (procs : Map Slot) (next : ℕ) (closed : List ℕ) (v : IsChannelSafe procs next closed) where
  -- What a slot of the changed table was.
  abbrev Was : Text → Slot → Text → Slot → Type 0
  Was id x j b = ((id ≡ j) × (x ≡ b)) ⊎ ((id ≢ j) × (lookup j procs ≡ some b))

  was : (id j : Text) (x b : Slot) → lookup j (insert id x procs) ≡ some b → Was id x j b
  was id j x b h = elim (Bool-cases (eq_text id j)) [
    | inl e ↦ inl (
      ground (arith, eq_text_iff id j, e),
      some-injective x b (rw (lookup-insert id j x procs, e) at h),
    )
    | inr e ↦ inr (
      (λ same. absurd (ground (arith, eq_text_iff id j, e, same))),
      rw (lookup-insert id j x procs, e) at h,
    )
  ]

  pub shrunk-IsChannelSafe :
      (fewer : Map Slot)
      → ((k : Text) (b : Slot) → lookup k fewer ≡ some b → lookup k procs ≡ some b)
      → IsChannelSafe fewer next closed
  shrunk-IsChannelSafe fewer of = record {
    made = λ id sl h. v.made id sl (of id sl h);
    apart = λ i j a b hi hj. v.apart i j a b (of i a hi) (of j b hj);
    still_open = λ id sl h. v.still_open id sl (of id sl h);
    closed_made = v.closed_made;
    once = v.once;
  }

  module _ (id : Text) (a x : Slot) (at : lookup id procs ≡ some a)
      (same : x.ready_ch ≡ a.ready_ch) where
    replaced-apart :
        (i j : Text) (b c : Slot)
        → lookup i (insert id x procs) ≡ some b
        → lookup j (insert id x procs) ≡ some c
        → b.ready_ch ≡ c.ready_ch
        → i ≡ j
    replaced-apart i j b c hi hj e = elim (was id i x b hi) [
      | inl (ei, eb) ↦ elim (was id j x c hj) [
        | inl (ej, ec) ↦ sym ei ∙ ej
        | inr (nj, lj) ↦ sym ei ∙ v.apart id j a c at lj (sym same ∙ ap (λ s. s.ready_ch) eb ∙ e)
      ]
      | inr (ni, li) ↦ elim (was id j x c hj) [
        | inl (ej, ec) ↦ v.apart i id b a li at (e ∙ ap (λ s. s.ready_ch) (sym ec) ∙ same) ∙ ej
        | inr (nj, lj) ↦ v.apart i j b c li lj e
      ]
    ]

    replaced-made :
        (j : Text) (b : Slot) → lookup j (insert id x procs) ≡ some b → b.ready_ch < next
    replaced-made j b h = elim (was id j x b h) [
      | inl (e, eb) ↦ subst (λ s. s.ready_ch < next) eb (rw same (v.made id a at))
      | inr (n, l) ↦ v.made j b l
    ]

    pub replaced-IsChannelSafe :
        x.ready_ch_closed ≡ a.ready_ch_closed → IsChannelSafe (insert id x procs) next closed
    replaced-IsChannelSafe flag = record {
      made = replaced-made;
      apart = replaced-apart;
      still_open = λ j b h unshut. elim (was id j x b h) [
        | inl (e, eb) ↦
            subst (λ s. ¬ In s.ready_ch closed) eb
              (rw same (v.still_open id a at (sym flag ∙ ap (λ s. s.ready_ch_closed) eb ∙ unshut)))
        | inr (n, l) ↦ v.still_open j b l unshut
      ];
      closed_made = v.closed_made;
      once = v.once;
    }

    pub closed-IsChannelSafe :
        a.ready_ch_closed ≡ false
        → x.ready_ch_closed ≡ true
        → IsChannelSafe (insert id x procs) next (a.ready_ch ∷ closed)
    closed-IsChannelSafe unshut shut = record {
      made = replaced-made;
      apart = replaced-apart;
      still_open = λ j b h later. elim (was id j x b h) [
        | inl (e, eb) ↦ absurd (let clash = sym shut ∙ ap (λ s. s.ready_ch_closed) eb ∙ later in cc)
        | inr (n, l) ↦
            λ m. elim m [ inl e ↦ n (v.apart id j a b at l e) | inr k ↦ v.still_open j b l later k ]
      ];
      closed_made = λ c m. elim m [
        | inl e ↦ subst (λ k. k < next) e (v.made id a at)
        | inr k ↦ v.closed_made c k
      ];
      once = (v.still_open id a at unshut, v.once);
    }

  module _ (id : Text) (x : Slot) (new : x.ready_ch ≡ next) where
    pub made-IsChannelSafe : IsChannelSafe (insert id x procs) (next + 1) closed
    made-IsChannelSafe = record {
      made = λ j b h. elim (was id j x b h) [
        | inl (e, eb) ↦ subst (λ s. s.ready_ch < next + 1) eb (omega (arith, new))
        | inr (n, l) ↦ omega (arith, v.made j b l)
      ];
      apart = λ i j b c hi hj e. elim (was id i x b hi) [
        | inl (ei, eb) ↦ elim (was id j x c hj) [
          | inl (ej, ec) ↦ sym ei ∙ ej
          | inr (nj, lj) ↦ absurd (omega (arith, new, e, ap (λ s. s.ready_ch) eb, v.made j c lj))
        ]
        | inr (ni, li) ↦ elim (was id j x c hj) [
          | inl (ej, ec) ↦ absurd (omega (arith, new, e, ap (λ s. s.ready_ch) ec, v.made i b li))
          | inr (nj, lj) ↦ v.apart i j b c li lj e
        ]
      ];
      still_open = λ j b h unshut. elim (was id j x b h) [
        | inl (e, eb) ↦
            λ m. absurd (omega (arith, new, ap (λ s. s.ready_ch) eb, v.closed_made b.ready_ch m))
        | inr (n, l) ↦ v.still_open j b l unshut
      ];
      closed_made = λ c m. omega (arith, v.closed_made c m);
      once = v.once;
    }
