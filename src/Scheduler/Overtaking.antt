-- ===== src/Scheduler/Overtaking.antt =====
-- A switch of `Loop`, which does not take `switchMu`, between the two halves of a start on demand
-- (internal/scheduler/reconcile.go, scheduler.go, switching.go).
use llama_proxy.Prelude.{
  ℕ, suc, ◌≡◌, ◌≢◌, refl, sym, ap, subst, ◌∙◌, true, false, inl, inr, none, some, List, [], ◌∷◌,
  arith, Text, In, lookup, lookup-insert, eq_text, eq_text_iff, eq_text→eq, eq_text_refl, is_empty,
  if◌then◌else◌, ◌==◌, Bool-cases,
}
use llama_proxy.Config.{ProcessConfig, entry, default_background_group, mode_background}
use llama_proxy.Scheduler.{Env, Slot, Scheduler, running}
use llama_proxy.Scheduler.Process.{survives, stop_all}
use llama_proxy.Scheduler.Arbitration.{
  Course, alone, acquire_gpu, launched, launch_slot, register_start, start_on_demand, done,
}
use llama_proxy.Scheduler.Switching.{launch_one, launch_all, register_switch, begin_switch}
use llama_proxy.Scheduler.Exclusive.{Holds}
use llama_proxy.Scheduler.Steps.{lookup-kept_slots}

-- While the start on demand frees the port of its model, `Loop` switches to the start set.
abbrev pub overtaking : Env → Course
overtaking env = record {
  env = λ n. env;
  others = λ n s.
      if n == 2
      then begin_switch (alone env) s (default_background_group s.cfg) mode_background
      else s;
}

-- A model `j` of the start set that can start and declares the gpu of `id`, which is free.
pub record IsContested (env : Env) (s : Scheduler) (id j : Text) : Type 0 where
  pub wanted : ProcessConfig
  pub other : ProcessConfig
  pub wanted_entry : entry s.cfg id ≡ some wanted
  pub other_entry : entry s.cfg j ≡ some other
  pub different : id ≢ j
  pub same_gpu : other.gpu ≡ wanted.gpu
  pub has_gpu : is_empty wanted.gpu ≡ false
  pub shared : other.resident ≡ false
  pub in_group : In j (default_background_group s.cfg)
  pub wanted_starts : (is_empty wanted.command ≡ false) × ((pid : ℕ) × (env.spawn id ≡ some pid))
  pub other_starts : (is_empty other.command ≡ false) × ((pid : ℕ) × (env.spawn j ≡ some pid))
  pub idle : lookup id s.procs ≡ none
  pub gpu_free : acquire_gpu env s id ≡ done s

-- The slot of the model runs.
abbrev IsUp : Env → Text → Scheduler → Type 0
IsUp env j s = (sl : Slot) × (lookup j s.procs ≡ some sl) × (running env sl ≡ true)

module _ (env : Env) (j : Text) (d : ProcessConfig) (starts : is_empty d.command ≡ false) (pid : ℕ)
    (shell : env.spawn j ≡ some pid) where
  -- A launched slot runs its shell.
  launched-running :
      (s : Scheduler) → entry s.cfg j ≡ some d → running env (launched env s j) ≡ true
  unfolding launched running
  launched-running s known = ground (arith, known, starts, shell)

  launch_one-cfg : (n : ℕ) (s : Scheduler) (i : Text) → (launch_one (alone env) n s i).cfg ≡ s.cfg
  unfolding launch_one launch_slot
  launch_one-cfg n s i = ground arith

  launch_one-keeps :
      (n : ℕ) (s : Scheduler) (i : Text) → IsUp env j s → IsUp env j (launch_one (alone env) n s i)
  unfolding launch_one launch_slot
  launch_one-keeps n s i (sl, there, up) = (
    sl,
    ground (arith, there, up, lookup-insert i j (launched env s i) s.procs, eq_text→eq i j),
    up,
  )

  launch_one-starts :
      (n : ℕ) (s : Scheduler)
      → entry s.cfg j ≡ some d
      → lookup j s.procs ≡ none
      → IsUp env j (launch_one (alone env) n s j)
  unfolding launch_one launch_slot
  launch_one-starts n s known gone = (
    launched env s j,
    ground (arith, known, gone, lookup-insert j j (launched env s j) s.procs, eq_text_refl j),
    launched-running s known,
  )

  launch_one-skips :
      (n : ℕ) (s : Scheduler) (i : Text)
      → eq_text i j ≡ false
      → lookup j s.procs ≡ none
      → lookup j (launch_one (alone env) n s i).procs ≡ none
  unfolding launch_one launch_slot
  launch_one-skips n s i off gone =
      ground (arith, off, gone, lookup-insert i j (launched env s i) s.procs)

  launch_all-keeps :
      (n : ℕ) (s : Scheduler) (ids : List Text)
      → IsUp env j s
      → IsUp env j (launch_all (alone env) n s ids).1
  unfolding launch_all
  launch_all-keeps n s [] up = up
  launch_all-keeps n s (i ∷ ids) up =
      launch_all-keeps (suc (suc n)) (launch_one (alone env) n s i) ids (launch_one-keeps n s i up)

  launch_all-starts :
      (n : ℕ) (s : Scheduler) (ids : List Text)
      → entry s.cfg j ≡ some d
      → lookup j s.procs ≡ none
      → In j ids
      → IsUp env j (launch_all (alone env) n s ids).1
  unfolding launch_all
  launch_all-starts n s [] known gone m = absurd m
  launch_all-starts n s (i ∷ ids) known gone m = elim (Bool-cases (eq_text i j)) [
    | inl same ↦ launch_all-keeps (suc (suc n)) (launch_one (alone env) n s i) ids (
        subst (λ x. IsUp env j (launch_one (alone env) n s x)) (sym (eq_text→eq i j same))
          (launch_one-starts n s known gone))
    | inr off ↦
        launch_all-starts (suc (suc n)) (launch_one (alone env) n s i) ids
          (ap (λ c. entry c j) (launch_one-cfg n s i) ∙ known) (launch_one-skips n s i off gone)
          (elim m [
            | inl e ↦ absurd (ground (arith, off, (eq_text_iff i j).1 e))
            | inr later ↦ later
          ])
  ]

  launch_all-cfg :
      (n : ℕ) (s : Scheduler) (ids : List Text) → (launch_all (alone env) n s ids).1.cfg ≡ s.cfg
  unfolding launch_all
  launch_all-cfg n s [] = refl
  launch_all-cfg n s (i ∷ ids) =
      launch_all-cfg (suc (suc n)) (launch_one (alone env) n s i) ids ∙ launch_one-cfg n s i

  -- The switch starts `j`.
  begin_switch-starts :
      (s : Scheduler) (ids : List Text) (mode : Text)
      → entry s.cfg j ≡ some d
      → survives s.cfg j ≡ false
      → In j ids
      → IsUp env j (begin_switch (alone env) s ids mode)
        × ((begin_switch (alone env) s ids mode).cfg ≡ s.cfg)
  unfolding begin_switch register_switch stop_all
  begin_switch-starts s ids mode known stopped m = (
    launch_all-starts 1 (stop_all s).1 ids known
        (ground (arith, lookup-kept_slots s.cfg s.procs j, stopped)) m,
    launch_all-cfg 1 (stop_all s).1 ids,
  )

-- The model `i` runs in the state and declares the gpu.
Holds-IsUp :
    (env : Env) (s t : Scheduler) (i gpu : Text) (c : ProcessConfig)
    → entry s.cfg i ≡ some c
    → c.gpu ≡ gpu
    → IsUp env i t
    → Holds env s.cfg t.procs i gpu
Holds-IsUp env s t i gpu c known declares (sl, there, up) = record {
  slot = sl;
  config = c;
  entered = there;
  runs = up;
  configured = known;
  declares = declares;
}

-- The start on demand of a model whose gpu is free, during which `Loop` switches to a start set with another model of
-- that gpu, ends with both models running on the gpu: the launch does not look at the gpu again.
pub start_on_demand-overtaken :
    (env : Env) (s : Scheduler) (id j : Text)
    → (h : IsContested env s id j)
    → (t : Scheduler) × (ch : ℕ) × (start_on_demand (overtaking env) s id ≡ done (t, ch))
      × Holds env s.cfg t.procs id h.wanted.gpu
      × Holds env s.cfg t.procs j h.wanted.gpu
unfolding start_on_demand launch_slot register_start survives
start_on_demand-overtaken env s id j h =
    let group = default_background_group s.cfg in
    let between = begin_switch (alone env) s group mode_background in
    let (pid, shell) = h.wanted_starts.1 in
    let (other_pid, other_shell) = h.other_starts.1 in
    let ((sl, there, up), same) =
      begin_switch-starts env j h.other h.other_starts.0 other_pid other_shell s group
        mode_background h.other_entry
        (ground (arith, h.other_entry, h.shared, h.has_gpu, ap is_empty h.same_gpu)) h.in_group in
    let t = register_start (launch_slot env between id) id in
    (
      t,
      between.next_ch,
      ground (arith, h.idle, h.gpu_free),
      Holds-IsUp env s t id h.wanted.gpu h.wanted h.wanted_entry refl (
        launched env between id,
        ground
            (arith, lookup-insert id id (launched env between id) between.procs, eq_text_refl id),
        launched-running env id h.wanted h.wanted_starts.0 pid shell between
            (ap (λ c. entry c id) same ∙ h.wanted_entry),
      ),
      Holds-IsUp env s t j h.wanted.gpu h.other h.other_entry h.same_gpu (
        sl,
        ground (
          arith,
          lookup-insert id j (launched env between id) between.procs,
          eq_text→eq id j,
          h.different,
          there,
        ),
        up,
      ),
    )
