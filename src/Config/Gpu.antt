-- ===== src/Config/Gpu.antt =====
-- What an accepted scheduling configuration guarantees (internal/config/scheduling.go).
use llama_proxy.Prelude.{
  ◌<◌, ◌≡◌, ◌≢◌, refl, sym, subst, ◌∙◌, true, false, ◌⊎◌, inl, inr, none, some, List, [], ◌∷◌,
  arith, Text, Map, In, lookup, insert, lookup-insert, lookup→In, lookup→In-keys, keys,
  sort_texts-In, eq_text_iff, eq_text→eq, eq_text_refl, is_empty, In-sort_texts, Bool-cases,
  Option-cases, trim_space,
}
use llama_proxy.Config.{
  ProcessConfig, SchedulingConfig, is_coding, is_background, in_start_set, start_ids,
  default_background_group,
}
use llama_proxy.Config.Validation.{
  ConfigError, check_entry, check_entries, gpu_of, check_group, claim_residents, check_pinned,
  check_residents, validate_scheduling,
}

-- A model already in `seen` excludes every later member of the start set from its gpu.
check_group-seen :
    (m : Map ProcessConfig) (seen : Map Text) (ds : List Text) (g prev i : Text)
    → check_group m seen ds ≡ none
    → lookup g seen ≡ some prev
    → In i ds
    → gpu_of m i ≡ g
    → is_empty g ≡ false
    → ⊥
unfolding check_group
check_group-seen m seen [] g prev i ok held here same full = here
check_group-seen m seen (d ∷ ds) g prev i ok held (inl e) same full = ground arith
check_group-seen m seen (d ∷ ds) g prev i ok held (inr later) same full = ground (
  arith,
  check_group-seen m seen ds g prev i,
  check_group-seen m (insert (gpu_of m d) d seen) ds g prev i,
  lookup-insert (gpu_of m d) g d seen,
  eq_text_iff (gpu_of m d) g,
)

check_group-apart :
    (m : Map ProcessConfig) (seen : Map Text) (ds : List Text) (i j : Text)
    → check_group m seen ds ≡ none
    → In i ds
    → In j ds
    → i ≢ j
    → gpu_of m i ≡ gpu_of m j
    → is_empty (gpu_of m i) ≡ false
    → ⊥
unfolding check_group
check_group-apart m seen [] i j ok a b ne same full = a
check_group-apart m seen (d ∷ ds) i j ok (inl a) (inl b) ne same full = ne (sym a ∙ b)
check_group-apart m seen (d ∷ ds) i j ok (inl a) (inr b) ne same full = ground (
  arith,
  check_group-seen m (insert (gpu_of m d) d seen) ds (gpu_of m d) d j,
  lookup-insert (gpu_of m d) (gpu_of m d) d seen,
  eq_text_refl (gpu_of m d),
)
check_group-apart m seen (d ∷ ds) i j ok (inr a) (inl b) ne same full = ground (
  arith,
  check_group-seen m (insert (gpu_of m d) d seen) ds (gpu_of m d) d i,
  lookup-insert (gpu_of m d) (gpu_of m d) d seen,
  eq_text_refl (gpu_of m d),
)
check_group-apart m seen (d ∷ ds) i j ok (inr a) (inr b) ne same full = ground (
  arith,
  check_group-apart m seen ds i j,
  check_group-apart m (insert (gpu_of m d) d seen) ds i j,
)

pub record IsWellFormed (e : ProcessConfig) : Type 0 where
  pub mode_known : (is_coding e ≡ true) ⊎ (is_background e ≡ true)
  pub probed : is_empty e.command ≡ false → is_empty (trim_space e.readiness_url) ≡ false
  pub autostart_background : e.autostart ≡ true → is_background e ≡ true
  pub resident_background : e.resident ≡ true → is_background e ≡ true
  pub no_pool_background : e.no_pool ≡ true → is_background e ≡ true
  pub sleeps : 0 < e.sleep_timeout → (is_background e ≡ true) × (e.no_pool ≡ true)

check_entry-IsWellFormed :
    (id : Text) (e : ProcessConfig) → check_entry id e ≡ none → IsWellFormed e
unfolding check_entry
check_entry-IsWellFormed id e h = ground arith

check_entries-IsWellFormed :
    (m : Map ProcessConfig) (id : Text) (e : ProcessConfig)
    → check_entries m ≡ none
    → In (id, e) m
    → IsWellFormed e
unfolding check_entries
check_entries-IsWellFormed [] id e ok here = absurd here
check_entries-IsWellFormed ((j, d) ∷ m) id e ok (inl same) =
    subst (λ p. IsWellFormed p.1) same (check_entry-IsWellFormed j d (ground arith))
check_entries-IsWellFormed ((j, d) ∷ m) id e ok (inr later) =
    check_entries-IsWellFormed m id e (ground arith) later

In-start_ids :
    (m : Map ProcessConfig) (ids : List Text) (id : Text) (e : ProcessConfig)
    → In id ids
    → lookup id m ≡ some e
    → in_start_set e ≡ true
    → In id (start_ids m ids)
unfolding start_ids
In-start_ids m [] id e here found auto = absurd here
In-start_ids m (k ∷ ks) id e (inl same) found auto = rw (same, start_ids, found, auto) (inl same)
In-start_ids m (k ∷ ks) id e (inr later) found auto =
    ground (arith, In-start_ids m ks id e later found auto)

start_ids-In :
    (m : Map ProcessConfig) (ids : List Text) (id : Text)
    → In id (start_ids m ids)
    → (e : ProcessConfig) × (lookup id m ≡ some e) × (in_start_set e ≡ true)
unfolding start_ids
start_ids-In m [] id here = absurd here
start_ids-In m (k ∷ ks) id h = elim (Option-cases (lookup k m)) [
  | inl missing ↦ start_ids-In m ks id (rw (missing, start_ids) at h)
  | inr (e, found) ↦ elim (Bool-cases (in_start_set e)) [
    | inr out ↦ start_ids-In m ks id (rw (found, out, start_ids) at h)
    | inl auto ↦ elim (rw (found, auto, start_ids) at h) [
      | inl same ↦ (e, rw (sym same) found, auto)
      | inr later ↦ start_ids-In m ks id later
    ]
  ]
]

-- Every member of the start set is an autostart background model.
pub default_background_group-In :
    (sc : SchedulingConfig) (id : Text)
    → In id (default_background_group sc)
    → (e : ProcessConfig) × (lookup id sc.models ≡ some e) × (in_start_set e ≡ true)
unfolding default_background_group
default_background_group-In sc id h =
    start_ids-In sc.models (keys sc.models) id (sort_texts-In id _ h)

claim_residents-keep :
    (seen : Map Text) (m : Map ProcessConfig) (out : Map Text) (g r : Text)
    → claim_residents seen m ≡ inr out
    → lookup g seen ≡ some r
    → lookup g out ≡ some r
unfolding claim_residents
claim_residents-keep seen [] out g r ok held = ground arith
claim_residents-keep seen ((id, e) ∷ m) out g r ok held = ground (
  arith,
  claim_residents-keep seen m out g r,
  claim_residents-keep (insert e.gpu id seen) m out g r,
  lookup-insert e.gpu g id seen,
  eq_text_iff e.gpu g,
)

-- Every resident model is entered as the owner of its gpu.
claim_residents-owner :
    (seen : Map Text) (m : Map ProcessConfig) (out : Map Text) (id : Text) (e : ProcessConfig)
    → claim_residents seen m ≡ inr out
    → In (id, e) m
    → e.resident ≡ true
    → is_empty e.gpu ≡ false
    → lookup e.gpu out ≡ some id
unfolding claim_residents
claim_residents-owner seen [] out id e ok here res full = absurd here
claim_residents-owner seen ((j, d) ∷ m) out id e ok (inl same) res full = ground (
  arith,
  claim_residents-keep (insert d.gpu j seen) m out d.gpu j,
  lookup-insert d.gpu d.gpu j seen,
  eq_text_refl d.gpu,
)
claim_residents-owner seen ((j, d) ∷ m) out id e ok (inr later) res full = ground (
  arith,
  claim_residents-owner seen m out id e,
  claim_residents-owner (insert d.gpu j seen) m out id e,
)

check_pinned-owner :
    (residents : Map Text) (m : Map ProcessConfig) (id : Text) (e : ProcessConfig) (r : Text)
    → check_pinned residents m ≡ none
    → In (id, e) m
    → is_empty e.gpu ≡ false
    → lookup e.gpu residents ≡ some r
    → r ≡ id
unfolding check_pinned
check_pinned-owner residents [] id e r ok here full held = absurd here
check_pinned-owner residents ((j, d) ∷ m) id e r ok (inl same) full held =
    ground (arith, eq_text→eq r j)
check_pinned-owner residents ((j, d) ∷ m) id e r ok (inr later) full held =
    ground (arith, check_pinned-owner residents m id e r)

check_residents-alone :
    (m : Map ProcessConfig) (i j : Text) (a b : ProcessConfig)
    → check_residents m ≡ none
    → In (i, a) m
    → In (j, b) m
    → i ≢ j
    → a.resident ≡ true
    → a.gpu ≡ b.gpu
    → is_empty a.gpu ≡ true
unfolding check_residents
check_residents-alone m i j a b ok ha hb ne res same = elim (Bool-cases (is_empty a.gpu)) [
  | inl e ↦ e
  | inr full ↦ absurd (ne (at_owner (claim_residents [] m) refl full))
]
  where
    at_owner :
        (r : ConfigError ⊎ Map Text) → claim_residents [] m ≡ r → is_empty a.gpu ≡ false → i ≡ j
    at_owner (inl x) e full = cc (e, ok)
    at_owner (inr out) e full =
        check_pinned-owner out m j b i (rw (e, check_residents) at ok) hb (rw same at full)
          (rw same at (claim_residents-owner [] m out i a e ha res full))

-- What the rest of the program may rely on in a scheduling configuration.
pub record IsValid (sc : SchedulingConfig) : Type 0 where
  pub well_formed : (i : Text) (a : ProcessConfig) → lookup i sc.models ≡ some a → IsWellFormed a
  pub start_set_apart :
      (i j : Text) (a b : ProcessConfig)
      → lookup i sc.models ≡ some a
      → lookup j sc.models ≡ some b
      → i ≢ j
      → in_start_set a ≡ true
      → in_start_set b ≡ true
      → a.gpu ≡ b.gpu
      → is_empty a.gpu ≡ true
  pub resident_alone :
      (i j : Text) (a b : ProcessConfig)
      → lookup i sc.models ≡ some a
      → lookup j sc.models ≡ some b
      → i ≢ j
      → a.resident ≡ true
      → a.gpu ≡ b.gpu
      → is_empty a.gpu ≡ true

module _ (sc : SchedulingConfig) where
  gpu_of-lookup :
      (i : Text) (a : ProcessConfig) → lookup i sc.models ≡ some a → gpu_of sc.models i ≡ a.gpu
  unfolding gpu_of
  gpu_of-lookup i a h = rw (h, gpu_of)

  start_apart :
      (i j : Text) (a b : ProcessConfig)
      → check_group sc.models [] (default_background_group sc) ≡ none
      → lookup i sc.models ≡ some a
      → lookup j sc.models ≡ some b
      → i ≢ j
      → in_start_set a ≡ true
      → in_start_set b ≡ true
      → a.gpu ≡ b.gpu
      → is_empty a.gpu ≡ true
  unfolding default_background_group
  start_apart i j a b ok ha hb ne sa sb same = elim (Bool-cases (is_empty a.gpu)) [
    | inl e ↦ e
    | inr full ↦ absurd (
        check_group-apart sc.models [] (default_background_group sc) i j ok
          (In-sort_texts i _
            (In-start_ids sc.models (keys sc.models) i a (lookup→In-keys i a sc.models ha) ha sa))
          (In-sort_texts j _
            (In-start_ids sc.models (keys sc.models) j b (lookup→In-keys j b sc.models hb) hb sb))
          ne (gpu_of-lookup i a ha ∙ same ∙ sym (gpu_of-lookup j b hb))
          (rw (gpu_of-lookup i a ha) full))
  ]

-- A scheduling configuration that `validateScheduling` accepts has only well-formed entries (a known
-- mode; a readiness address for each command; autostart, resident, no_pool and sleep_timeout only on
-- background models; sleep_timeout only with no_pool), no two start-set members on one declared gpu,
-- and no model that shares the declared gpu of a resident model.
pub validate_scheduling-IsValid :
    (sc : SchedulingConfig) → validate_scheduling sc ≡ none → IsValid sc
unfolding validate_scheduling
validate_scheduling-IsValid sc ok = record {
  well_formed =
      λ i a h. check_entries-IsWellFormed sc.models i a (ground arith) (lookup→In i a sc.models h);
  start_set_apart = λ i j a b. start_apart sc i j a b (ground arith);
  resident_alone = λ i j a b ha hb.
      check_residents-alone sc.models i j a b (ground arith) (lookup→In i a sc.models ha)
        (lookup→In j b sc.models hb);
}
