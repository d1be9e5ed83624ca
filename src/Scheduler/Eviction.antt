-- ===== src/Scheduler/Eviction.antt =====
-- `acquireGPU` and the two ways to start a single model keep one running process for each gpu
-- (internal/scheduler/scheduler.go, reconcile.go).
use llama_proxy.Prelude.{
  suc, ℕ, ◌≡◌, ◌≢◌, refl, sym, ap, subst, ◌∙◌, true, false, not, ◌⊎◌, inl, inr, none, some, arith,
  Text, Map, keys, lookup, insert, lookup→In-keys, eq_text, eq_text_iff, eq_text→eq, is_empty,
  Bool-cases, Option-cases, if◌then◌else◌, some-injective,
}
use llama_proxy.Config.{ProcessConfig, SchedulingConfig, entry}
use llama_proxy.Scheduler.{Env, Slot, Scheduler, running}
use llama_proxy.Scheduler.Process.{suspend_slot}
use llama_proxy.Scheduler.Arbitration.{
  Course, register_start, find_owner, acquire_gpu, launched, launch_slot, start_on_demand, Outcome,
  done, fail, is_resident, gpu_held, SchedError,
}
use llama_proxy.Scheduler.Exclusive.{
  Holds, IsExclusive, find_owner-none, find_owner-Holds, Holds-insert, Holds-idle,
}

done_inj : {a b : Scheduler} → ◌≡◌ {A = Outcome Scheduler} (done a) (done b) → a ≡ b
done_inj h = cc

suspend_slot-cfg : (s : Scheduler) (o : Text) (sl : Slot) → (suspend_slot s o sl).cfg ≡ s.cfg
unfolding suspend_slot
suspend_slot-cfg s o sl = refl

suspend_slot-Holds :
    (env : Env) (s : Scheduler) (o j gpu : Text) (sl : Slot)
    → Holds env s.cfg (suspend_slot s o sl).procs j gpu
    → (o ≢ j) × Holds env s.cfg s.procs j gpu
unfolding suspend_slot running
suspend_slot-Holds env s o j gpu sl held =
    let h = Holds-idle env s.cfg _ o j gpu _ refl held in
    (h.0, Holds-insert env s.cfg s.procs o j gpu _ h.0 h.1)

-- The model may start: no slot but its own holds the gpu.
pub record IsFree (env : Env) (id : Text) (e : ProcessConfig) (s free : Scheduler) : Type 0 where
  pub cfg_kept : free.cfg ≡ s.cfg
  pub still : (j gpu : Text) → Holds env s.cfg free.procs j gpu → Holds env s.cfg s.procs j gpu
  pub alone : (j : Text) → is_empty e.gpu ≡ false → Holds env s.cfg free.procs j e.gpu → j ≡ id

module _ (env : Env) (s : Scheduler) (id : Text) (e : ProcessConfig)
    (exclusive : IsExclusive env s.cfg s.procs) (known : entry s.cfg id ≡ some e) where
  acquire_gpu-evict :
      (o : Text) (sl : Slot)
      → find_owner env s.cfg s.procs id e.gpu (keys s.procs) ≡ some (o, sl)
      → IsFree env id e s (suspend_slot s o sl)
  acquire_gpu-evict o sl h =
      let owns = find_owner-Holds env s.cfg s.procs id e.gpu (keys s.procs) o sl h in
      record {
        cfg_kept = suspend_slot-cfg s o sl;
        still = λ j gpu held. (suspend_slot-Holds env s o j gpu sl held).1;
        alone = λ j full held.
            let kept = suspend_slot-Holds env s o j e.gpu sl held in
            absurd (kept.0 (exclusive o j e.gpu full owns.2 kept.1));
      }

  pub acquire_gpu-IsFree :
      (free : Scheduler) → acquire_gpu env s id ≡ done free → IsFree env id e s free
  unfolding acquire_gpu
  acquire_gpu-IsFree free h = elim (Bool-cases (is_empty e.gpu)) [
    | inl bare ↦ subst (IsFree env id e s) (done_inj (rw (known, bare, acquire_gpu) at h)) (record {
      cfg_kept = refl;
      still = λ j gpu held. held;
      alone = λ j full held. cc (bare, full);
    })
    | inr full ↦ elim (Option-cases (find_owner env s.cfg s.procs id e.gpu (keys s.procs))) [
      | inl nobody ↦
          subst (IsFree env id e s) (done_inj (rw (known, full, nobody, acquire_gpu) at h))
            (record {
              cfg_kept = refl;
              still = λ j gpu held. held;
              alone = λ j _ held.
                  find_owner-none env s.cfg s.procs id e.gpu (keys s.procs) j nobody
                    (lookup→In-keys j held.slot s.procs held.entered) held;
            })
      | inr ((o, sl), owner) ↦
          at_owner o sl owner (rw (known, full, owner, acquire_gpu) at h)
            (Bool-cases (is_resident s.cfg o))
    ]
  ]
    where
      at_owner :
          (o : Text) (sl : Slot)
          → find_owner env s.cfg s.procs id e.gpu (keys s.procs) ≡ some (o, sl)
          → (if is_resident s.cfg o then fail (gpu_held e.gpu o id) else done (suspend_slot s o sl))
            ≡ done free
          → (is_resident s.cfg o ≡ true) ⊎ (is_resident s.cfg o ≡ false)
          → IsFree env id e s free
      at_owner o sl owner r (inl pinned) = absurd (cc (rw pinned at r))
      at_owner o sl owner r (inr light) =
          subst (IsFree env id e s) (done_inj (rw light at r)) (acquire_gpu-evict o sl owner)

  IsFree-IsExclusive :
      (free : Scheduler) → IsFree env id e s free → IsExclusive env s.cfg free.procs
  IsFree-IsExclusive free f i j gpu full hi hj =
      exclusive i j gpu full (f.still i gpu hi) (f.still j gpu hj)

  own_gpu :
      (m : Map Slot) (i gpu : Text) → eq_text id i ≡ true → Holds env s.cfg m i gpu → e.gpu ≡ gpu
  own_gpu m i gpu at h =
      let here : entry s.cfg id ≡ some h.config =
        subst (λ k. entry s.cfg k ≡ some h.config) (sym (eq_text→eq id i at)) h.configured in
      ap (λ c. c.gpu) (some-injective e h.config (sym known ∙ here)) ∙ h.declares

  not_both :
      (free : Scheduler) (x : Slot) (i j gpu : Text)
      → IsFree env id e s free
      → is_empty gpu ≡ false
      → Holds env s.cfg (insert id x free.procs) i gpu
      → Holds env s.cfg (insert id x free.procs) j gpu
      → eq_text id i ≡ true
      → eq_text id j ≡ false
      → ⊥
  not_both free x i j gpu f full hi hj at off =
      let same : e.gpu ≡ gpu = own_gpu (insert id x free.procs) i gpu at hi in
      let apart : id ≢ j = λ (q : id ≡ j). ground (arith, eq_text_iff id j) in
      let held : Holds env s.cfg free.procs j gpu =
        Holds-insert env s.cfg free.procs id j gpu x apart hj in
      apart (
        sym (
          f.alone j (subst (λ g. is_empty g ≡ false) (sym same) full)
            (subst (Holds env s.cfg free.procs j) (sym same) held)))

  -- Any slot for the model may be entered.
  insert-IsExclusive :
      (free : Scheduler) (x : Slot)
      → IsFree env id e s free
      → IsExclusive env s.cfg (insert id x free.procs)
  insert-IsExclusive free x f i j gpu full hi hj = elim (Bool-cases (eq_text id i)) [
    | inl at_i ↦ elim (Bool-cases (eq_text id j)) [
      | inl at_j ↦ sym (eq_text→eq id i at_i) ∙ eq_text→eq id j at_j
      | inr off_j ↦ absurd (not_both free x i j gpu f full hi hj at_i off_j)
    ]
    | inr off_i ↦ elim (Bool-cases (eq_text id j)) [
      | inl at_j ↦ absurd (not_both free x j i gpu f full hj hi at_j off_i)
      | inr off_j ↦
          exclusive i j gpu full (f.still i gpu (old i off_i hi)) (f.still j gpu (old j off_j hj))
    ]
  ]
    where
      old :
          (k : Text)
          → eq_text id k ≡ false
          → Holds env s.cfg (insert id x free.procs) k gpu
          → Holds env s.cfg free.procs k gpu
      old k off h =
          Holds-insert env s.cfg free.procs id k gpu x
            (λ (q : id ≡ k). ground (arith, eq_text_iff id k)) h

-- Meanwhile no model starts to run: a slot that holds a gpu in a section held it in the one before.
pub record StartsNothing (course : Course) : Type 0 where
  pub cfg_kept : (n : ℕ) (s : Scheduler) → (course.others n s).cfg ≡ s.cfg
  pub quiet :
      (n : ℕ) (s : Scheduler) (j gpu : Text)
      → Holds (course.env (suc n)) s.cfg (course.others (suc n) s).procs j gpu
      → Holds (course.env n) s.cfg s.procs j gpu

-- The gpu is still free when other goroutines have run.
quiet-IsFree :
    (course : Course) (n : ℕ) (s free : Scheduler) (id : Text) (e : ProcessConfig)
    → StartsNothing course
    → IsFree (course.env n) id e s free
    → (j : Text) → is_empty e.gpu ≡ false
    → Holds (course.env (suc n)) s.cfg (course.others (suc n) free).procs j e.gpu
    → j ≡ id
quiet-IsFree course n s free id e k f j full held = f.alone j full (
    subst (λ c. Holds (course.env n) c free.procs j e.gpu) f.cfg_kept
      (k.quiet n free j e.gpu (
        subst (λ c. Holds (course.env (suc n)) c (course.others (suc n) free).procs j e.gpu)
          (sym f.cfg_kept) held)))

quiet-IsExclusive :
    (course : Course) (n : ℕ) (s : Scheduler) (cfg : SchedulingConfig)
    → StartsNothing course
    → s.cfg ≡ cfg
    → IsExclusive (course.env n) cfg s.procs
    → IsExclusive (course.env (suc n)) cfg (course.others (suc n) s).procs
quiet-IsExclusive course n s cfg k same exclusive i j gpu full hi hj =
    exclusive i j gpu full (back i hi) (back j hj)
  where
    back :
        (x : Text)
        → Holds (course.env (suc n)) cfg (course.others (suc n) s).procs x gpu
        → Holds (course.env n) cfg s.procs x gpu
    back x h =
        subst (λ c. Holds (course.env n) c s.procs x gpu) same
          (k.quiet n s x gpu (
            subst (λ c. Holds (course.env (suc n)) c (course.others (suc n) s).procs x gpu)
              (sym same) h))

acquire_gpu-cases :
    (env : Env) (s : Scheduler) (id : Text)
    → ((x : SchedError) × (acquire_gpu env s id ≡ fail x))
      ⊎ ((free : Scheduler) × (acquire_gpu env s id ≡ done free))
acquire_gpu-cases env s id = at (acquire_gpu env s id) refl
  where
    at :
        (o : Outcome Scheduler)
        → acquire_gpu env s id ≡ o
        → ((x : SchedError) × (acquire_gpu env s id ≡ fail x))
          ⊎ ((free : Scheduler) × (acquire_gpu env s id ≡ done free))
    at (fail x) h = inl (x, h)
    at (done free) h = inr (free, h)

-- How a single model is started: not at all, or, after its gpu is free, in the section that follows.
abbrev Started : Course → Scheduler → Text → Scheduler → Type 0
Started course s id t =
    (t ≡ s)
    ⊎ ((free : Scheduler) × (acquire_gpu (course.env 1) (course.others 1 s) id ≡ done free)
        × (t.procs
            ≡ (course.others 3 (launch_slot (course.env 2) (course.others 2 free) id)).procs))

Started-fresh :
    (course : Course) (s t : Scheduler) (id : Text) (ch : ℕ)
    → (elim (lookup id s.procs) [ none ↦ true | some sl ↦ not (running (course.env 0) sl) ]) ≡ true
    → start_on_demand course s id ≡ done (t, ch)
    → Started course s id t
unfolding start_on_demand register_start
Started-fresh course s t id ch fresh h =
    elim (acquire_gpu-cases (course.env 1) (course.others 1 s) id) [
      | inl (x, bad) ↦ absurd (ground arith)
      | inr (free, good) ↦ inr (free, good, ground arith)
    ]

start_on_demand-Started :
    (course : Course) (s t : Scheduler) (id : Text) (ch : ℕ)
    → start_on_demand course s id ≡ done (t, ch)
    → Started course s id t
unfolding start_on_demand
start_on_demand-Started course s t id ch h = elim (Option-cases (lookup id s.procs)) [
  | inl missing ↦ Started-fresh course s t id ch (rw missing) h
  | inr (sl, found) ↦ elim (Bool-cases (running (course.env 0) sl)) [
    | inl up ↦ inl (ground arith)
    | inr down ↦ Started-fresh course s t id ch (rw (found, down)) h
  ]
]

launch_slot-procs :
    (env : Env) (s : Scheduler) (id : Text)
    → ((launch_slot env s id).procs ≡ insert id (launched env s id) s.procs)
      × ((launch_slot env s id).cfg ≡ s.cfg)
unfolding launch_slot
launch_slot-procs env s id = (refl, refl)

module _ (course : Course) (id : Text) (e : ProcessConfig) (k : StartsNothing course) where
  -- The launch into the state that other goroutines leave of a free gpu.
  launch_slot-IsExclusive :
      (s free : Scheduler)
      → entry s.cfg id ≡ some e
      → IsExclusive (course.env 1) s.cfg s.procs
      → IsFree (course.env 1) id e s free
      → let t = launch_slot (course.env 2) (course.others 2 free) id in
        (t.cfg ≡ s.cfg) × IsExclusive (course.env 2) s.cfg t.procs
  launch_slot-IsExclusive s free known exclusive f =
      let before = course.others 2 free in
      let same : before.cfg ≡ s.cfg = k.cfg_kept 2 free ∙ f.cfg_kept in
      let at : IsExclusive (course.env 2) s.cfg before.procs =
        quiet-IsExclusive course 1 free s.cfg k f.cfg_kept
          (IsFree-IsExclusive (course.env 1) s id e exclusive known free f) in
      let here : IsFree (course.env 2) id e before before = record {
        cfg_kept = refl;
        still = λ j gpu held. held;
        alone = λ j full held.
            quiet-IsFree course 1 s free id e k f j full
              (subst (λ c. Holds (course.env 2) c before.procs j e.gpu) same held);
      } in
      let (procs_eq, cfg_eq) = launch_slot-procs (course.env 2) before id in
      (
        cfg_eq ∙ same,
        subst (λ c. IsExclusive (course.env 2) c (launch_slot (course.env 2) before id).procs) same
            (subst (IsExclusive (course.env 2) before.cfg) (sym procs_eq) (
              insert-IsExclusive (course.env 2) before id e
                (subst (λ c. IsExclusive (course.env 2) c before.procs) (sym same) at)
                (ap (λ c. entry c id) same ∙ known) before (launched (course.env 2) before id)
                here)),
      )

  -- Starting a configured background model on demand keeps one running process for each declared gpu if, between
  -- its sections, other goroutines start no model to run: either nothing changes, or, when the start is registered, no
  -- two running slots declare one gpu, if that held before.
  pub start_on_demand-IsExclusive :
      (s t : Scheduler) (ch : ℕ)
      → entry s.cfg id ≡ some e
      → IsExclusive (course.env 0) s.cfg s.procs
      → start_on_demand course s id ≡ done (t, ch)
      → (t ≡ s) ⊎ IsExclusive (course.env 3) s.cfg t.procs
  start_on_demand-IsExclusive s t ch known exclusive h =
      elim (start_on_demand-Started course s t id ch h) [
        | inl idle ↦ inl idle
        | inr (free, got, procs_eq) ↦
            let first = course.others 1 s in
            let same : first.cfg ≡ s.cfg = k.cfg_kept 1 s in
            let at : IsExclusive (course.env 1) first.cfg first.procs =
              subst (λ c. IsExclusive (course.env 1) c first.procs) (sym same)
                (quiet-IsExclusive course 0 s s.cfg k refl exclusive) in
            let known_there : entry first.cfg id ≡ some e = ap (λ c. entry c id) same ∙ known in
            let f = acquire_gpu-IsFree (course.env 1) first id e at known_there free got in
            let (cfg_eq, there) = launch_slot-IsExclusive first free known_there at f in
            inr (
              subst (IsExclusive (course.env 3) s.cfg) (sym procs_eq) (
                quiet-IsExclusive course 2 (launch_slot (course.env 2) (course.others 2 free) id)
                  s.cfg k (cfg_eq ∙ same)
                  (subst
                    (λ c.
                      IsExclusive (course.env 2) c
                        (launch_slot (course.env 2) (course.others 2 free) id).procs)
                    same there)))
      ]
