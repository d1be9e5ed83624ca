-- ===== src/Scheduler/Backoff.antt =====
-- The startup backoff (internal/scheduler/scheduler.go: `recordStartupFailLocked`,
-- `clearStartupFailLocked`, `backoffActiveLocked`).
use native.Mathlib.Nat.{pow-suc, one-le-pow, mul-le-mul_left}
use llama_proxy.Prelude.{
  ℕ, zero, suc, ◌+◌, ◌-◌, ◌*◌, ◌^◌, ◌≤◌, ◌≡◌, sym, ap, ◌∙◌, inl, inr, none, some, Text, arith,
  lookup, lookup-insert, eq_text_refl, Bool-cases, ltb, or_else,
}
use llama_proxy.Scheduler.{
  Env, Scheduler, double_backoff, cap_backoff, record_startup_fail, max_startup_backoff,
}

cap_backoff_full :
    (b k : ℕ) → max_startup_backoff ≤ b → cap_backoff (b * 2 ^ k) ≡ max_startup_backoff
unfolding cap_backoff
cap_backoff_full b k h = ground (arith, mul-le-mul_left b (pow_pos k))
  where
    pow_pos : (j : ℕ) → 1 ≤ 2 ^ j
    pow_pos j = one-le-pow j 2 (omega arith)

at_limit : (b : ℕ) → max_startup_backoff ≤ b → cap_backoff b ≡ max_startup_backoff
unfolding cap_backoff
at_limit b h = ground arith

-- The loop doubles up to the limit; capped, that is the exponential.
cap-double_backoff : (r b : ℕ) → cap_backoff (double_backoff r b) ≡ cap_backoff (b * 2 ^ r)
unfolding double_backoff
cap-double_backoff zero b = ap cap_backoff (omega arith)
cap-double_backoff (suc r) b = elim (Bool-cases (ltb b max_startup_backoff)) [
  | inl small ↦
      rw (small, double_backoff)
        (cap-double_backoff r (b * 2)
          ∙ ap cap_backoff (omega (arith, ap (λ (t : ℕ). b * t) (pow-suc 2 r))))
  | inr large ↦
      rw (large, double_backoff)
        (at_limit b (ground arith) ∙ sym (cap_backoff_full b (suc r) (ground arith)))
]

cap_backoff-le : (b : ℕ) → cap_backoff b ≤ max_startup_backoff
unfolding cap_backoff
cap_backoff-le b = ground arith

-- The consecutive failures of a model so far.
abbrev pub failures : Scheduler → Text → ℕ
failures s id = or_else 0 (lookup id s.fail_count)

-- The first failure of a model is counted and starts no backoff.
pub record_startup_fail_first :
    (env : Env) (s : Scheduler) (id : Text)
    → failures s id ≡ 0
    → let r = record_startup_fail env s id in
      (failures r.0 id ≡ 1) × (r.1 ≡ none) × (r.0.next_restart_at ≡ s.next_restart_at)
unfolding record_startup_fail
record_startup_fail_first env s id first = (
  ground (arith, lookup-insert id id (failures s id + 1) s.fail_count, eq_text_refl id),
  ground arith,
  ground arith,
)

-- The failure after k + 1 failures in a row is counted, and forbids a restart before now plus the
-- base backoff doubled k times, capped at five minutes; so the wait never exceeds five minutes.
pub record_startup_fail_later :
    (env : Env) (s : Scheduler) (id : Text) (k : ℕ)
    → failures s id ≡ suc k
    → let r = record_startup_fail env s id in
      let until = env.now + cap_backoff (s.fail_backoff * 2 ^ k) in
      (failures r.0 id ≡ suc (suc k))
      × (r.1 ≡ some until)
      × (lookup id r.0.next_restart_at ≡ some until)
      × (until ≤ env.now + max_startup_backoff)
unfolding record_startup_fail
record_startup_fail_later env s id k later =
    let exact : failures s id + 1 - 2 ≡ k = omega arith in
    let until = λ (j : ℕ). env.now + cap_backoff (double_backoff j s.fail_backoff) in
    ground (
      arith,
      exact,
      ap until exact,
      cap-double_backoff k s.fail_backoff,
      cap_backoff-le (s.fail_backoff * 2 ^ k),
      lookup-insert id id (failures s id + 1) s.fail_count,
      lookup-insert id id (until (failures s id + 1 - 2)) s.next_restart_at,
      eq_text_refl id,
    )
