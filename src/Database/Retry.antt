-- ===== src/Database/Retry.antt =====
-- internal/db/database.go: `RetryWrite`. The n-th call of the write gives its n-th result: none, or its error, as the
-- text of the error; strings.ToLower is the parameter `lower`. The sleep between two attempts is left out.
use native.Mathlib.Decide.{dec_lt}
use llama_proxy.Prelude.{
  ℕ, zero, suc, ◌+◌, ◌<◌, ◌≡◌, refl, ap, sym, Bool, true, false, not, ◌||◌, Option, none, some,
  List, [], ◌∷◌, arith, Text, codes, contains, if◌then◌else◌, Bool-cases, Option-cases, inl, inr,
}

-- The texts that `isBusyError` looks for.
abbrev pub patterns : List Text
patterns =
    codes "database is locked"
    ∷ codes "sqlbusy"
    ∷ codes "sqlite_busy"
    ∷ codes "busy"
    ∷ codes "deadlock detected"
    ∷ codes "deadlock_detected"
    ∷ codes "could not serialize access"
    ∷ codes "serialization_failure"
    ∷ codes "lock timeout"
    ∷ codes "lock_timeout"
    ∷ codes "database table is locked"
    ∷ []

unfoldable pub contains_any : Text → List Text → Bool
contains_any msg [] = false
contains_any msg (pat ∷ pats) = contains msg pat || contains_any msg pats

module _ (lower : Text → Text) where
  unfoldable pub is_busy_error : Option Text → Bool
  unfolding contains_any
  is_busy_error none = false
  is_busy_error (some e) = contains_any (lower e) patterns

  -- The loop: the attempts that are left, the next attempt, and the last error; the result, with the number of calls.
  unfoldable pub retry_loop : (ℕ → Option Text) → ℕ → ℕ → Option Text → Option Text × ℕ
  unfolding is_busy_error
  retry_loop op zero attempt err = (err, attempt)
  retry_loop op (suc left) attempt err =
      let again = retry_loop op left (suc attempt) (op attempt) in
      elim (op attempt) [
        | none ↦ (none, suc attempt)
        | some e ↦ if not (is_busy_error (some e)) then (some e, suc attempt) else again
      ]

  unfoldable pub retry_write : (ℕ → Option Text) → Option Text × ℕ
  unfolding retry_loop
  retry_write op = retry_loop op 5 0 none

  -- The calls before the n-th one failed with a busy error.
  abbrev pub AllBusy : (ℕ → Option Text) → ℕ → Type 0
  AllBusy op n = (i : ℕ) → i < n → is_busy_error (op i) ≡ true

  -- What a run with room for `left` attempts promises: the call number `last` is the last one, at
  -- most `left` calls were made, each call before it failed with a busy error, the result is its result, and calls are left
  -- over only if that is no busy error.
  pub record IsLast (op : ℕ → Option Text) (left attempt : ℕ) (r : Option Text × ℕ) (last : ℕ)
      : Type 0 where
    pub calls : r.1 ≡ suc last
    pub bounded : last < left + attempt
    pub result : r.0 ≡ op last
    pub busy : AllBusy op last
    pub stops : suc last < left + attempt → is_busy_error (op last) ≡ false

  busy-next :
      (op : ℕ → Option Text) (n : ℕ)
      → AllBusy op n
      → is_busy_error (op n) ≡ true
      → AllBusy op (suc n)
  busy-next op n busy more i h = elim (dec_lt i n) [
    | yes before ↦ busy i before
    | no last ↦ let e : n ≡ i = omega arith in rw (ap (λ k. is_busy_error (op k)) (sym e)) more
  ]

  retry_loop-final :
      (op : ℕ → Option Text) (left attempt : ℕ) (err : Option Text)
      → AllBusy op attempt
      → is_busy_error (op attempt) ≡ false
      → IsLast op (suc left) attempt (retry_loop op (suc left) attempt err) attempt
  unfolding retry_loop
  retry_loop-final op left attempt err busy final = elim (Option-cases (op attempt)) [
    | inl ok ↦ record {
      calls = ground (arith, ok);
      bounded = omega arith;
      result = ground (arith, ok);
      busy = busy;
      stops = λ h. final;
    }
    | inr (e, bad) ↦ record {
      calls = ground (arith, bad, final);
      bounded = omega arith;
      result = ground (arith, bad, final);
      busy = busy;
      stops = λ h. final;
    }
  ]

  -- A busy error leads to the next attempt.
  retry_loop-again :
      (op : ℕ → Option Text) (left attempt : ℕ) (err : Option Text)
      → is_busy_error (op attempt) ≡ true
      → retry_loop op (suc left) attempt err ≡ retry_loop op left (suc attempt) (op attempt)
  unfolding retry_loop is_busy_error
  retry_loop-again op left attempt err more = elim (Option-cases (op attempt)) [
    | inl ok ↦ ground (arith, ok, more)
    | inr (e, bad) ↦ ground (arith, bad, more)
  ]

  retry_loop-IsLast :
      (op : ℕ → Option Text) (left attempt : ℕ) (err : Option Text)
      → AllBusy op attempt
      → (last : ℕ) × IsLast op (suc left) attempt (retry_loop op (suc left) attempt err) last
  unfolding retry_loop
  retry_loop-IsLast op zero attempt err busy = elim (Bool-cases (is_busy_error (op attempt))) [
    | inr final ↦ (attempt, retry_loop-final op zero attempt err busy final)
    | inl more ↦
        let e = retry_loop-again op zero attempt err more in
        (
          attempt,
          record {
            calls = rw e refl;
            bounded = omega arith;
            result = rw e refl;
            busy = busy;
            stops = λ h. absurd (omega (arith, h));
          },
        )
  ]
  retry_loop-IsLast op (suc left) attempt err busy =
      elim (Bool-cases (is_busy_error (op attempt))) [
        | inr final ↦ (attempt, retry_loop-final op (suc left) attempt err busy final)
        | inl more ↦
            let e = retry_loop-again op (suc left) attempt err more in
            let (last, r) =
              retry_loop-IsLast op left (suc attempt) (op attempt)
                (busy-next op attempt busy more) in
            (
              last,
              record {
                calls = rw e r.calls;
                bounded = omega (arith, r.bounded);
                result = rw e r.result;
                busy = r.busy;
                stops = λ h. r.stops (omega (arith, h));
              },
            )
      ]

  -- A write is called one to five times, each call but the last one fails with a busy error, the result
  -- is that of the last call, and fewer than five calls are made only if that is no busy error.
  pub retry_write-IsLast : (op : ℕ → Option Text) → (last : ℕ) × IsLast op 5 0 (retry_write op) last
  unfolding retry_write
  retry_write-IsLast op = retry_loop-IsLast op 4 0 none (λ i h. absurd (omega (arith, h)))
