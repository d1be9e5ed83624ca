-- ===== src/Store/Minutes.antt =====
-- internal/store/store_stats.go: GetMinuteStats around its statement. What the statement answers under a filter, and
-- the text of a minute in the zone +8, are parameters; a time counts nanoseconds, a number below 0 of minutes is 0.
use llama_proxy.Prelude.{
  ◌≤◌, ℕ, ◌+◌, ◌-◌, ◌*◌, ◌≡◌, refl, ap, ◌∙◌, Option, none, some, List, [], ◌∷◌, arith, Text, Map,
  lookup, insert, length, if◌then◌else◌, ltb, ◌==◌, or_else, In, inl, inr, Distinct, keys,
  lookup-insert, eq_text, Option-cases, Bool-cases, lookup→In-keys, eq_text→eq, ◌/◌, zero, suc, ◌<◌,
  subst,
}
use llama_proxy.Store.Filter.{RequestFilter}

-- The counts of a minute.
pub record Counts : Type 0 where
  pub total_requests : ℕ
  pub prompt_tokens : ℕ
  pub cached_prompt_tokens : ℕ
  pub completion_tokens : ℕ
  pub total_tokens : ℕ
  pub ok_requests : ℕ
  pub err4xx : ℕ
  pub err5xx : ℕ

abbrev pub no_counts : Counts
no_counts = record {
  total_requests = 0;
  prompt_tokens = 0;
  cached_prompt_tokens = 0;
  completion_tokens = 0;
  total_tokens = 0;
  ok_requests = 0;
  err4xx = 0;
  err5xx = 0;
}

abbrev pub minute : ℕ
minute = 60000000000

unfoldable pub clamp_minutes : ℕ → ℕ
clamp_minutes n = if n == 0 then 60 else if ltb 1440 n then 1440 else n

-- The start of the first minute.
unfoldable pub window_start : ℕ → ℕ → ℕ
window_start now n = now / minute * minute - (n - 1) * minute

-- The filter with the window in place of the bounds that it lacks.
unfoldable pub with_window : ℕ → ℕ → RequestFilter → RequestFilter
with_window now start f = record f {
  time_from = some (or_else start f.time_from);
  time_to = some (or_else now f.time_to);
}

-- The rows of the answer by their minute.
unfoldable pub buckets_of : List (Text × Counts) → Map Counts → Map Counts
buckets_of [] m = m
buckets_of ((k, c) ∷ rows) m = buckets_of rows (insert k c m)

module _ (format : ℕ → Text) where
  -- The loop from the minute at `start`, for the minutes that are left.
  unfoldable pub fill : Map Counts → ℕ → ℕ → List (Text × Counts)
  fill buckets start zero = []
  fill buckets start (suc n) =
      let key = format start in
      (key, or_else no_counts (lookup key buckets)) ∷ fill buckets (start + minute) n

  unfoldable pub get_minute_stats :
      (RequestFilter → Option (List (Text × Counts)))
      → ℕ
      → ℕ
      → RequestFilter
      → Option (List (Text × Counts))
  unfolding clamp_minutes window_start with_window buckets_of fill
  get_minute_stats rows now minutes f =
      let n = clamp_minutes minutes in
      let start = window_start now n in
      elim (rows (with_window now start f)) [
        | none ↦ none
        | some rs ↦ some (fill (buckets_of rs []) start n)
      ]

  length-fill : (buckets : Map Counts) (start n : ℕ) → length (fill buckets start n) ≡ n
  unfolding fill
  length-fill buckets start zero = refl
  length-fill buckets start (suc n) = ap suc (length-fill buckets (start + minute) n)

  fill-In :
      (buckets : Map Counts) (start n i : ℕ)
      → i < n
      → In
          (
            format (start + i * minute),
            or_else no_counts (lookup (format (start + i * minute)) buckets),
          )
          (fill buckets start n)
  unfolding fill
  fill-In buckets start zero i h = absurd (omega (arith, h))
  fill-In buckets start (suc n) zero h =
      subst
        (λ t.
          In (format t, or_else no_counts (lookup (format t) buckets)) (fill buckets start (suc n)))
        (omega arith) (inl refl)
  fill-In buckets start (suc n) (suc i) h =
      subst
        (λ t.
          In (format t, or_else no_counts (lookup (format t) buckets)) (fill buckets start (suc n)))
        (omega arith) (inr (fill-In buckets (start + minute) n i (omega (arith, h))))

Option-id : (r : Option Counts) → (elim r [ none ↦ none | some c ↦ some c ]) ≡ r
Option-id none = refl
Option-id (some c) = refl

absent : (k : Text) (rows : Map Counts) → ¬ In k (keys rows) → lookup k rows ≡ none
absent k rows out = elim (Option-cases (lookup k rows)) [
  | inl none_there ↦ none_there
  | inr (c, there) ↦ absurd (out (lookup→In-keys k c rows there))
]

-- A minute's counts are those of its row, as rows have different minutes.
lookup-buckets_of :
    (k : Text) (rows m : Map Counts)
    → Distinct (keys rows)
    → lookup k (buckets_of rows m) ≡ elim (lookup k rows) [ none ↦ lookup k m | some c ↦ some c ]
unfolding buckets_of lookup keys
lookup-buckets_of k [] m d = refl
lookup-buckets_of k ((j, c) ∷ rows) m d =
    let ih = lookup-buckets_of k rows (insert j c m) d.1 in
    elim (Bool-cases (eq_text j k)) [
      | inl same ↦
          let gone = absent k rows (subst (λ x. ¬ In x (keys rows)) (eq_text→eq j k same) d.0) in
          ih ∙ ground (arith, same, gone, lookup-insert j k c m)
      | inr other ↦ ih ∙ ground (arith, other, lookup-insert j k c m)
    ]

-- What the statement answers is a row for each minute, grouped.
abbrev pub IsGrouped : List (Text × Counts) → Type 0
IsGrouped rows = Distinct (keys rows)

-- The number of minutes that a caller asks for: 60 where none is given, and at most a day.
pub record IsAsked (minutes n : ℕ) : Type 0 where
  pub not_given : minutes ≡ 0 → n ≡ 60
  pub in_range : 0 < minutes → minutes ≤ 1440 → n ≡ minutes
  pub too_many : 1440 < minutes → n ≡ 1440

IsAsked-clamp :
    (minutes n : ℕ) → IsAsked minutes n → (n ≡ clamp_minutes minutes) × (0 < n) × (n ≤ 1440)
unfolding clamp_minutes
IsAsked-clamp minutes n a = elim (Bool-cases (minutes == 0)) [
  | inl none_given ↦
      let e = a.not_given (ground (arith, none_given)) in
      (ground (arith, none_given, e), omega arith, omega arith)
  | inr some_given ↦ elim (Bool-cases (ltb 1440 minutes)) [
    | inl many ↦
        let e = a.too_many (ground (arith, many)) in
        (ground (arith, some_given, many, e), omega arith, omega arith)
    | inr few ↦
        let e = a.in_range (ground (arith, some_given)) (ground (arith, few)) in
        (ground (arith, some_given, few, e), ground (arith, some_given, e), ground (arith, few, e))
  ]
]

-- The start of the minute that lies i minutes before that of `now`.
abbrev pub minutes_ago : ℕ → ℕ → ℕ
minutes_ago now i = now / 60000000000 * 60000000000 - i * 60000000000

minutes_ago-start :
    (now n i : ℕ)
    → i < n
    → n ≤ 1440
    → 86400000000000 ≤ now
    → window_start now n + (n - 1 - i) * minute ≡ minutes_ago now i
unfolding window_start
minutes_ago-start now n i below few late = omega arith

module _ (format : ℕ → Text) where
  -- For 60 minutes where none are asked for, for the asked ones, and for 1440 where more are: if the statement, asked
  -- from the start of the first of these minutes to now (or within the bounds of the filter), answers rows of different
  -- minutes, the statistics have one row for each minute that lies less than so many minutes before this one, with the
  -- counts of the answer, or zeros, and no other row.
  pub get_minute_stats-exact :
      (answer : RequestFilter → Option (List (Text × Counts))) (now minutes n : ℕ)
      (f : RequestFilter) (rows : List (Text × Counts))
      → 86400000000000 ≤ now
      → IsAsked minutes n
      → answer (record f {
        time_from = some (or_else (minutes_ago now (n - 1)) f.time_from);
        time_to = some (or_else now f.time_to);
      })
        ≡ some rows
      → IsGrouped rows
      → (out : List (Text × Counts)) × (get_minute_stats format answer now minutes f ≡ some out)
        × (length out ≡ n)
        × ((i : ℕ)
            → i < n
            → let key = format (minutes_ago now i) in
              In (key, or_else no_counts (lookup key rows)) out)
  unfolding get_minute_stats lookup with_window window_start
  get_minute_stats-exact answer now minutes n f rows late asked h grouped =
      let start = window_start now n in
      let out = fill format (buckets_of rows []) start n in
      let (e, some_minutes, few) = IsAsked-clamp minutes n asked in
      (
        out,
        subst
            (λ k.
              elim (answer (with_window now (window_start now k) f)) [
                | none ↦ none
                | some rs ↦ some (fill format (buckets_of rs []) (window_start now k) k)
              ]
              ≡ some out)
            e (ground (arith, h)),
        length-fill format (buckets_of rows []) start n,
        λ i below.
            let key = format (minutes_ago now i) in
            subst (λ r. In (key, or_else no_counts r) out)
              (lookup-buckets_of key rows [] grouped ∙ Option-id (lookup key rows))
              (subst
                (λ t. In (format t, or_else no_counts (lookup (format t) (buckets_of rows []))) out)
                (minutes_ago-start now n i below few late)
                (fill-In format (buckets_of rows []) start n (n - 1 - i) (omega (arith, below)))),
      )
