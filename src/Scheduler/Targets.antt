-- ===== src/Scheduler/Targets.antt =====
-- A switch under an accepted configuration leaves one running process for each gpu
-- (internal/scheduler/switching.go: `switchTo`; process.go: `stopAll`).
use llama_proxy.Prelude.{
  ℕ, suc, lookup-insert, ◌≡◌, ◌≢◌, refl, sym, ap, subst, ◌∙◌, true, false, ◌||◌, ◌⊎◌, inl, inr,
  none, some, some-injective, List, [], ◌∷◌, arith, Text, Map, In, lookup, insert, eq_text,
  eq_text_iff, eq_text→eq, is_empty, trim_space, Bool-cases, Option-cases,
}
use llama_proxy.Config.{
  ProcessConfig, SchedulingConfig, entry, default_background_group, mode_background, mode_coding,
}
use llama_proxy.Config.Validation.{validate_scheduling}
use llama_proxy.Config.Gpu.{IsValid, default_background_group-In, validate_scheduling-IsValid}
use llama_proxy.Scheduler.{Env, Slot, Scheduler, running}
use llama_proxy.Scheduler.Process.{stop_all, kept_slots, survives}
use llama_proxy.Scheduler.Arbitration.{Course, launched, launch_slot, is_resident}
use llama_proxy.Scheduler.Switching.{launch_one, launch_all, begin_switch}
use llama_proxy.Scheduler.Exclusive.{Holds, IsExclusive}

kept_slots-survives :
    (cfg : SchedulingConfig) (m : Map Slot) (j : Text) (sl : Slot)
    → lookup j (kept_slots cfg m) ≡ some sl
    → (survives cfg j ≡ true) × (lookup j m ≡ none → ⊥)
unfolding kept_slots lookup
kept_slots-survives cfg [] j sl h = cc
kept_slots-survives cfg ((k, x) ∷ m) j sl h = elim (Bool-cases (eq_text k j)) [
  | inl at ↦ ground (arith, eq_text→eq k j, kept_slots-survives cfg m j sl)
  | inr off ↦ ground (arith, kept_slots-survives cfg m j sl)
]

-- A key that `Entry` finds as it is.
abbrev pub IsTrimmed : Text → Type 0
IsTrimmed id = trim_space id ≡ id

abbrev pub KeysTrimmed : Map Slot → Type 0
KeysTrimmed procs = (j : Text) → (lookup j procs ≡ none → ⊥) → IsTrimmed j

-- A slot belongs to a model that survives the stop, or to the targets.
abbrev Accounted : SchedulingConfig → List Text → Map Slot → Type 0
Accounted cfg ids procs =
    (j : Text) → (lookup j procs ≡ none → ⊥) → IsTrimmed j × ((survives cfg j ≡ true) ⊎ In j ids)

-- Between the sections, other goroutines enter no slot for a model that has none.
pub record EntersNothing (course : Course) : Type 0 where
  pub cfg_kept : (n : ℕ) (s : Scheduler) → (course.others n s).cfg ≡ s.cfg
  pub no_slot :
      (n : ℕ) (s : Scheduler) (j : Text)
      → lookup j s.procs ≡ none
      → lookup j (course.others n s).procs ≡ none

kept_slots-Accounted :
    (cfg : SchedulingConfig) (ids : List Text) (m : Map Slot)
    → KeysTrimmed m
    → Accounted cfg ids (kept_slots cfg m)
kept_slots-Accounted cfg ids m trimmed j there = elim (Option-cases (lookup j (kept_slots cfg m))) [
  | inl gone ↦ absurd (there gone)
  | inr (sl, found) ↦
      let kept = kept_slots-survives cfg m j sl found in (trimmed j kept.1, inl kept.0)
]

insert-Accounted :
    (cfg : SchedulingConfig) (ids : List Text) (m : Map Slot) (id : Text) (x : Slot)
    → IsTrimmed id
    → In id ids
    → Accounted cfg ids m
    → Accounted cfg ids (insert id x m)
insert-Accounted cfg ids m id x t member a j there = elim (Bool-cases (eq_text id j)) [
  | inl at ↦
      let same : id ≡ j = eq_text→eq id j at in
      (subst IsTrimmed same t, inr (subst (λ k. In k ids) same member))
  | inr off ↦ a j (λ gone. there (ground (arith, lookup-insert id j x m, off, gone)))
]

-- The slots of a state that others leave.
others-Accounted :
    (course : Course) (n : ℕ) (s : Scheduler) (cfg : SchedulingConfig) (ids : List Text)
    → EntersNothing course
    → Accounted cfg ids s.procs
    → Accounted cfg ids (course.others n s).procs
others-Accounted course n s cfg ids k a j there = a j (λ gone. there (k.no_slot n s j gone))

-- A round leaves the slots that others leave, with at most one more, that of its target.
launch_one-cases :
    (course : Course) (n : ℕ) (s : Scheduler) (id : Text)
    → let t = launch_one course n s id in
      let later = course.others (suc n) s in
      (t ≡ s)
      ⊎ ((t.cfg ≡ later.cfg)
          × ((t.procs ≡ later.procs) ⊎ ((x : Slot) × (t.procs ≡ insert id x later.procs))))
unfolding launch_one launch_slot
launch_one-cases course n s id =
    let x = launched (course.env (suc n)) (course.others (suc n) s) id in
    elim (Option-cases (entry s.cfg id)) [
      | inl missing ↦ inl (ground arith)
      | inr (e, known) ↦ elim (Option-cases (lookup id s.procs)) [
        | inl fresh ↦ inr (ground arith, inr (x, ground arith))
        | inr (sl, found) ↦ elim (Bool-cases (running (course.env n) sl || sl.sleeping)) [
          | inl left ↦ inr (ground arith, inl (ground arith))
          | inr again ↦ inr (ground arith, inr (x, ground arith))
        ]
      ]
    ]

launch_one-Accounted :
    (course : Course) (n : ℕ) (cfg : SchedulingConfig) (s : Scheduler) (all : List Text) (id : Text)
    → EntersNothing course
    → s.cfg ≡ cfg
    → IsTrimmed id
    → In id all
    → Accounted cfg all s.procs
    → ((launch_one course n s id).cfg ≡ cfg) × Accounted cfg all (launch_one course n s id).procs
launch_one-Accounted course n cfg s all id k same trimmed member a =
    let later = others-Accounted course (suc n) s cfg all k a in
    elim (launch_one-cases course n s id) [
      | inl kept ↦
          (ap (λ t. t.cfg) kept ∙ same, subst (λ t. Accounted cfg all t.procs) (sym kept) a)
      | inr (cfg_eq, put) ↦ (
        cfg_eq ∙ k.cfg_kept (suc n) s ∙ same,
        elim put [
          | inl kept ↦ subst (Accounted cfg all) (sym kept) later
          | inr (x, more) ↦
              subst (Accounted cfg all) (sym more)
                (insert-Accounted cfg all (course.others (suc n) s).procs id x trimmed member later)
        ],
      )
    ]

launch_all-Accounted :
    (course : Course) (n : ℕ) (cfg : SchedulingConfig) (s : Scheduler) (all ids : List Text)
    → EntersNothing course
    → s.cfg ≡ cfg
    → ((i : Text) → In i ids → In i all)
    → ((i : Text) → In i all → IsTrimmed i)
    → Accounted cfg all s.procs
    → Accounted cfg all (launch_all course n s ids).1.procs
unfolding launch_all
launch_all-Accounted course n cfg s all [] k same sub trimmed a =
    others-Accounted course n s cfg all k a
launch_all-Accounted course n cfg s all (id ∷ ids) k same sub trimmed a =
    let member = sub id (inl refl) in
    let (cfg_eq, there) =
      launch_one-Accounted course n cfg (course.others n s) all id k (k.cfg_kept n s ∙ same)
        (trimmed id member) member (others-Accounted course n s cfg all k a) in
    launch_all-Accounted course (suc (suc n)) cfg (launch_one course n (course.others n s) id) all
      ids k cfg_eq (λ i m. sub i (inr m)) trimmed there

-- Two targets never declare one gpu.
abbrev pub TargetsApart : SchedulingConfig → List Text → Type 0
TargetsApart cfg ids =
    (i j : Text) (a b : ProcessConfig)
    → In i ids
    → In j ids
    → i ≢ j
    → entry cfg i ≡ some a
    → entry cfg j ≡ some b
    → a.gpu ≡ b.gpu
    → is_empty a.gpu ≡ true

resident_of :
    (cfg : SchedulingConfig) (i : Text) (a : ProcessConfig)
    → entry cfg i ≡ some a
    → is_resident cfg i ≡ true
    → a.resident ≡ true
resident_of cfg i a known h = ground arith

module _ (env : Env) (cfg : SchedulingConfig) (procs : Map Slot) (ids : List Text)
    (valid : IsValid cfg) (apart : TargetsApart cfg ids) where
  known_at :
      (i gpu : Text)
      → IsTrimmed i
      → (h : Holds env cfg procs i gpu) → lookup i cfg.models ≡ some h.config
  unfolding entry
  known_at i gpu t h = subst (λ k. lookup k cfg.models ≡ some h.config) t h.configured

  resident_excludes :
      (i j gpu : Text)
      → IsTrimmed i
      → IsTrimmed j
      → i ≢ j
      → is_resident cfg i ≡ true
      → Holds env cfg procs i gpu
      → Holds env cfg procs j gpu
      → is_empty gpu ≡ true
  resident_excludes i j gpu ti tj ne res hi hj =
      sym (ap is_empty hi.declares)
      ∙ valid.resident_alone i j hi.config hj.config (known_at i gpu ti hi) (known_at j gpu tj hj)
          ne (resident_of cfg i hi.config hi.configured res) (hi.declares ∙ sym hj.declares)

  not_two :
      (i j gpu : Text)
      → i ≢ j
      → Holds env cfg procs i gpu
      → Holds env cfg procs j gpu
      → IsTrimmed i × ((is_resident cfg i ≡ true) ⊎ In i ids)
      → IsTrimmed j × ((is_resident cfg j ≡ true) ⊎ In j ids)
      → is_empty gpu ≡ true
  not_two i j gpu ne hi hj (ti, inl res) (tj, other) = resident_excludes i j gpu ti tj ne res hi hj
  not_two i j gpu ne hi hj (ti, inr mi) (tj, inl res) =
      resident_excludes j i gpu tj ti (λ e. ne (sym e)) res hj hi
  not_two i j gpu ne hi hj (ti, inr mi) (tj, inr mj) =
      sym (ap is_empty hi.declares)
      ∙ apart i j hi.config hj.config mi mj ne hi.configured hj.configured
          (hi.declares ∙ sym hj.declares)

  -- A model that survives the stop and declares a gpu is resident.
  survivor-resident :
      (i gpu : Text)
      → is_empty gpu ≡ false
      → Holds env cfg procs i gpu
      → survives cfg i ≡ true
      → is_resident cfg i ≡ true
  unfolding survives
  survivor-resident i gpu full held stays =
      ground (arith, stays, full, held.configured, held.declares, ap is_empty held.declares)

  of_holder :
      (i gpu : Text)
      → is_empty gpu ≡ false
      → Holds env cfg procs i gpu
      → Accounted cfg ids procs
      → IsTrimmed i × ((is_resident cfg i ≡ true) ⊎ In i ids)
  of_holder i gpu full held a =
      let (t, by) =
        a i (λ gone. absurd (let bad : none ≡ some held.slot = sym gone ∙ held.entered in cc)) in
      (
        t,
        elim by [
          | inl stays ↦ inl (survivor-resident i gpu full held stays)
          | inr target ↦ inr target
        ],
      )

  Accounted-IsExclusive : Accounted cfg ids procs → IsExclusive env cfg procs
  Accounted-IsExclusive a i j gpu full hi hj = elim (Bool-cases (eq_text i j)) [
    | inl e ↦ eq_text→eq i j e
    | inr e ↦ absurd (
        cc (
          full,
          not_two i j gpu (λ (q : i ≡ j). ground (arith, eq_text_iff i j)) hi hj
              (of_holder i gpu full hi a) (of_holder j gpu full hj a),
        ))
  ]

begin_switch-IsExclusive :
    (course : Course) (env : Env) (s : Scheduler) (ids : List Text) (mode : Text)
    → EntersNothing course
    → IsValid s.cfg
    → TargetsApart s.cfg ids
    → ((i : Text) → In i ids → IsTrimmed i)
    → KeysTrimmed s.procs
    → IsExclusive env s.cfg (begin_switch course s ids mode).procs
unfolding begin_switch
begin_switch-IsExclusive course env s ids mode k valid apart trimmed keys_ok =
    Accounted-IsExclusive env s.cfg _ ids valid apart (
      launch_all-Accounted course 1 s.cfg (stop_all s).1 ids ids k refl (λ i m. m) trimmed
        (kept_slots-Accounted s.cfg ids s.procs keys_ok))

start_set_apart :
    (cfg : SchedulingConfig)
    → IsValid cfg
    → ((i : Text) → In i (default_background_group cfg) → IsTrimmed i)
    → TargetsApart cfg (default_background_group cfg)
unfolding entry
start_set_apart cfg valid trimmed i j a b mi mj ne ha hb same =
    let (c, known_c, auto_c) = default_background_group-In cfg i mi in
    let (d, known_d, auto_d) = default_background_group-In cfg j mj in
    let at_i : lookup i cfg.models ≡ some a =
      subst (λ k. lookup k cfg.models ≡ some a) (trimmed i mi) ha in
    let at_j : lookup j cfg.models ≡ some b =
      subst (λ k. lookup k cfg.models ≡ some b) (trimmed j mj) hb in
    valid.start_set_apart i j a b at_i at_j ne
      (rw (some-injective c a (sym known_c ∙ at_i)) at auto_c)
      (rw (some-injective d b (sym known_d ∙ at_j)) at auto_d) same

-- Under a configuration that `validateScheduling` accepts, with start-set IDs and slot keys that carry
-- no surrounding white space, switching to the background start set leaves no two running slots
-- that declare one gpu, whatever ran before, whichever processes die and whatever other goroutines do between its
-- sections, if they enter no slot for a model that has none.
pub switch_group-IsExclusive :
    (course : Course) (env : Env) (s : Scheduler)
    → EntersNothing course
    → validate_scheduling s.cfg ≡ none
    → ((i : Text) → In i (default_background_group s.cfg) → IsTrimmed i)
    → KeysTrimmed s.procs
    → IsExclusive env s.cfg
        (begin_switch course s (default_background_group s.cfg) mode_background).procs
switch_group-IsExclusive course env s k ok trimmed keys_ok =
    let valid = validate_scheduling-IsValid s.cfg ok in
    begin_switch-IsExclusive course env s (default_background_group s.cfg) mode_background k valid
      (start_set_apart s.cfg valid trimmed) trimmed keys_ok

-- Under a configuration that `validateScheduling` accepts, switching to a coding model whose ID and
-- whose slots' keys carry no surrounding white space leaves no two running slots that declare one
-- gpu, whatever ran before, whichever processes die and whatever other goroutines do between its
-- sections, if they enter no slot for a model that has none.
pub switch_coding-IsExclusive :
    (course : Course) (env : Env) (s : Scheduler) (id : Text)
    → EntersNothing course
    → validate_scheduling s.cfg ≡ none
    → IsTrimmed id
    → KeysTrimmed s.procs
    → IsExclusive env s.cfg (begin_switch course s (id ∷ []) mode_coding).procs
switch_coding-IsExclusive course env s id k ok trimmed keys_ok =
    begin_switch-IsExclusive course env s (id ∷ []) mode_coding k
      (validate_scheduling-IsValid s.cfg ok)
      (λ i j a b mi mj ne ha hb same. absurd (ne (one mi mj)))
      (λ i m. elim m [ inl e ↦ subst IsTrimmed e trimmed | inr no_more ↦ absurd no_more ]) keys_ok
  where
    one : {i j : Text} → In i (id ∷ []) → In j (id ∷ []) → i ≡ j
    one (inl a) (inl b) = sym a ∙ b
    one (inl a) (inr b) = absurd b
    one (inr a) b = absurd a
