-- ===== src/Scheduler/Exclusive.antt =====
-- One running process for each gpu (internal/scheduler: `acquireGPU`, `launchSlot`, `switchTo`).
use llama_proxy.Prelude.{
  ◌≡◌, ◌≢◌, true, false, not, ◌||◌, inl, inr, Option, none, some, List, [], ◌∷◌, arith, Text, Map,
  In, lookup, insert, lookup-insert, eq_text, eq_text_iff, eq_text→eq, eq_text_refl, is_empty,
  Bool-cases, Option-cases,
}
use llama_proxy.Config.{ProcessConfig, SchedulingConfig, entry}
use llama_proxy.Scheduler.{Env, Slot, running}
use llama_proxy.Scheduler.Arbitration.{find_owner}

-- The slot `id` runs a process of a model that declares `gpu`.
pub record Holds (env : Env) (cfg : SchedulingConfig) (procs : Map Slot) (id gpu : Text)
    : Type 0 where
  pub slot : Slot
  pub config : ProcessConfig
  pub entered : lookup id procs ≡ some slot
  pub runs : running env slot ≡ true
  pub configured : entry cfg id ≡ some config
  pub declares : config.gpu ≡ gpu

-- No declared gpu is held by two slots.
abbrev pub IsExclusive : Env → SchedulingConfig → Map Slot → Type 0
IsExclusive env cfg procs =
    (i j gpu : Text)
    → is_empty gpu ≡ false
    → Holds env cfg procs i gpu
    → Holds env cfg procs j gpu
    → i ≡ j

module _ (env : Env) (cfg : SchedulingConfig) (procs : Map Slot) (id gpu : Text) where
  pub find_owner-none :
      (oids : List Text) (j : Text)
      → find_owner env cfg procs id gpu oids ≡ none
      → In j oids
      → Holds env cfg procs j gpu
      → j ≡ id
  unfolding find_owner
  find_owner-none [] j h here held = absurd here
  find_owner-none (k ∷ ks) j h (inl same) held = eq_text→eq j id (elim (Bool-cases (eq_text j id)) [
    | inl e ↦ e
    | inr e ↦ absurd (ground (arith, eq_text_iff held.config.gpu gpu))
  ])
  find_owner-none (k ∷ ks) j h (inr later) held = find_owner-none ks j (ground arith) later held

  owner_at :
      (k : Text) (x : Slot) (e : ProcessConfig) (o : Text) (sl : Slot)
      → lookup k procs ≡ some x
      → (eq_text k id || not (running env x)) ≡ false
      → entry cfg k ≡ some e
      → eq_text e.gpu gpu ≡ true
      → ◌≡◌ {A = Option (Text × Slot)} (some (k, x)) (some (o, sl))
      → (o ≢ id) × (lookup o procs ≡ some sl) × Holds env cfg procs o gpu
  owner_at k x e o sl found test known same h = (
    λ (eq : o ≡ id). ground (arith, eq_text_refl k),
    ground arith,
    record {
      slot = x;
      config = e;
      entered = ground arith;
      runs = ground arith;
      configured = ground arith;
      declares = eq_text→eq e.gpu gpu same;
    },
  )

  pub find_owner-Holds :
      (oids : List Text) (o : Text) (sl : Slot)
      → find_owner env cfg procs id gpu oids ≡ some (o, sl)
      → (o ≢ id) × (lookup o procs ≡ some sl) × Holds env cfg procs o gpu
  unfolding find_owner
  find_owner-Holds [] o sl h = cc
  find_owner-Holds (k ∷ ks) o sl h = elim (Option-cases (lookup k procs)) [
    | inl missing ↦ find_owner-Holds ks o sl (rw (missing, find_owner) at h)
    | inr (x, found) ↦ elim (Bool-cases (eq_text k id || not (running env x))) [
      | inl skip ↦ find_owner-Holds ks o sl (rw (found, skip, find_owner) at h)
      | inr test ↦ elim (Option-cases (entry cfg k)) [
        | inl missing ↦ find_owner-Holds ks o sl (rw (found, test, missing, find_owner) at h)
        | inr (e, known) ↦ elim (Bool-cases (eq_text e.gpu gpu)) [
          | inr other ↦ find_owner-Holds ks o sl (rw (found, test, known, other, find_owner) at h)
          | inl same ↦
              owner_at k x e o sl found test known same
                (rw (found, test, known, same, find_owner) at h)
        ]
      ]
    ]
  ]

-- A slot other than the changed one is held as before.
pub Holds-insert :
    (env : Env) (cfg : SchedulingConfig) (procs : Map Slot) (k j gpu : Text) (x : Slot)
    → k ≢ j
    → Holds env cfg (insert k x procs) j gpu
    → Holds env cfg procs j gpu
Holds-insert env cfg procs k j gpu x ne held = record {
  slot = held.slot;
  config = held.config;
  entered = ground (arith, lookup-insert k j x procs, eq_text→eq k j, held.entered);
  runs = held.runs;
  configured = held.configured;
  declares = held.declares;
}

-- A slot that runs nothing holds no gpu.
pub Holds-idle :
    (env : Env) (cfg : SchedulingConfig) (procs : Map Slot) (k j gpu : Text) (x : Slot)
    → running env x ≡ false
    → Holds env cfg (insert k x procs) j gpu
    → (k ≢ j) × Holds env cfg procs j gpu
Holds-idle env cfg procs k j gpu x idle held =
    let ne : k ≢ j = λ (e : k ≡ j).
      ground (arith, lookup-insert k j x procs, eq_text_iff k j, held.entered, held.runs) in
    (ne, Holds-insert env cfg procs k j gpu x ne held)
