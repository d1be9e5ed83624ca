-- ===== src/Scheduler/Snapshot.antt =====
-- internal/scheduler/snapshot.go: the state of each model for the panel. Reading a field of a missing entry panics,
-- which is `none`.
use llama_proxy.Prelude.{
  ℤ, ℕ, ◌≡◌, ◌↔◌, refl, sym, subst, ◌∙◌, Bool, true, false, not, Option, none, some, List, [], ◌∷◌,
  arith, Text, In, lookup, keys, member, sort_texts, sort_texts-In, In-sort_texts, is_some, or_else,
  if◌then◌else◌, ltb, ◌==◌, Option-cases, inl, inr,
}
use llama_proxy.Config.{ProcessConfig, entry, default_background_group}
use llama_proxy.Scheduler.{Env, Slot, Scheduler, running}

pub record ModelStatus : Type 0 where
  pub id : Text
  pub mode : Text
  pub is_up : Bool
  pub ready : Bool
  pub pid : ℕ
  pub in_group : Bool
  pub resident : Bool
  pub gpu : Text
  pub no_pool : Bool
  pub sleeping : Bool
  pub fail_count : ℕ
  pub next_retry : Option ℕ
  pub load_started_at : Option ℕ
  pub load_duration : ℕ

pub record Snapshot : Type 0 where
  pub models : List ModelStatus
  pub group : List Text
  pub coding_model : Text
  pub switch_target : Text
  pub last_coding_at : Option ℕ
  pub lease : ℤ

-- The process of the server, or else that of its shell.
abbrev pub shown_pid : Slot → ℕ
shown_pid sl = if not (sl.server_pid == 0) then sl.server_pid else or_else 0 sl.cmd

abbrev pub retry_at : Env → Scheduler → Text → Option ℕ
retry_at env s id = elim (lookup id s.next_restart_at) [
  | none ↦ none
  | some t ↦ if ltb env.now t then some t else none
]

-- The status of a model without a slot.
abbrev pub bare_status : Env → Scheduler → List Text → Text → ProcessConfig → ModelStatus
bare_status env s group id e = record {
  id = id;
  mode = e.mode;
  is_up = false;
  ready = false;
  pid = 0;
  in_group = member id group;
  resident = e.resident;
  gpu = e.gpu;
  no_pool = e.no_pool;
  sleeping = false;
  fail_count = or_else 0 (lookup id s.fail_count);
  next_retry = retry_at env s id;
  load_started_at = none;
  load_duration = 0;
}

unfoldable pub status_of : Env → Scheduler → List Text → Text → ProcessConfig → ModelStatus
status_of env s group id e =
    let bare = bare_status env s group id e in
    elim (lookup id s.procs) [
      | none ↦ bare
      | some sl ↦ record bare {
        is_up = running env sl;
        ready = sl.ready_ok;
        sleeping = sl.sleeping;
        pid = shown_pid sl;
        load_started_at = if not sl.ready_ok then sl.load_started_at else none;
        load_duration = sl.last_load_duration;
      }
    ]

-- The loop over the sorted ids.
unfoldable pub statuses : Env → Scheduler → List Text → List Text → Option (List ModelStatus)
unfolding status_of
statuses env s group [] = some []
statuses env s group (id ∷ ids) =
    let rest = statuses env s group ids in
    elim (entry s.cfg id) [
      | none ↦ none
      | some e ↦ elim rest [ none ↦ none | some sts ↦ some (status_of env s group id e ∷ sts) ]
    ]

unfoldable pub snapshot : Env → Scheduler → Option Snapshot
unfolding statuses
snapshot env s =
    let group = default_background_group s.cfg in
    elim (statuses env s group (sort_texts (keys s.cfg.models))) [
      | none ↦ none
      | some sts ↦ some (record {
        models = sts;
        group = group;
        coding_model = s.coding_model;
        switch_target = s.switch_target;
        last_coding_at = s.last_coding_at;
        lease = s.lease;
      })
    ]

-- Every id of the list finds an entry.
abbrev AllEntered : Scheduler → List Text → Type 0
AllEntered s ids = (id : Text) → In id ids → is_some (entry s.cfg id) ≡ true

statuses-total :
    (env : Env) (s : Scheduler) (group ids : List Text)
    → (is_some (statuses env s group ids) ≡ true) ↔ AllEntered s ids
unfolding statuses
statuses-total env s group [] = ((λ h id m. absurd m), (λ h. refl))
statuses-total env s group (id ∷ ids) =
    let ih = statuses-total env s group ids in
    elim (Option-cases (entry s.cfg id)) [
      | inl gone ↦ (λ h. ground (arith, h, gone), λ all. ground (arith, gone, all id (inl refl)))
      | inr (e, found) ↦ elim (Option-cases (statuses env s group ids)) [
        | inl bad ↦ (
          λ h. ground (arith, h, found, bad),
          λ all. ground (arith, bad, ih.1 (λ x m. all x (inr m))),
        )
        | inr (sts, good) ↦ (
          λ h x m. elim m [
            | inl same ↦ subst (λ y. is_some (entry s.cfg y) ≡ true) same (ground (arith, found))
            | inr later ↦ ih.0 (ground (arith, good)) x later
          ],
          λ all. ground (arith, found, good),
        )
      ]
    ]

snapshot-statuses :
    (env : Env) (s : Scheduler)
    → is_some (snapshot env s)
      ≡ is_some (statuses env s (default_background_group s.cfg) (sort_texts (keys s.cfg.models)))
unfolding snapshot
snapshot-statuses env s =
    elim (Option-cases
      (statuses env s (default_background_group s.cfg) (sort_texts (keys s.cfg.models)))) [
        | inl bad ↦ ground (arith, bad)
        | inr (sts, good) ↦ ground (arith, good)
      ]

-- A snapshot is taken exactly when each configured id finds an entry; for an id with white space around
-- it, which `Entry` trims, it panics unless the trimmed id is configured too.
pub snapshot-total :
    (env : Env) (s : Scheduler)
    → (is_some (snapshot env s) ≡ true)
      ↔ ((id : Text) → In id (keys s.cfg.models) → is_some (entry s.cfg id) ≡ true)
snapshot-total env s =
    let ids = sort_texts (keys s.cfg.models) in
    let total = statuses-total env s (default_background_group s.cfg) ids in
    (
      λ h id m.
          total.0 (sym (snapshot-statuses env s) ∙ h) id (In-sort_texts id (keys s.cfg.models) m),
      λ all.
          snapshot-statuses env s
          ∙ total.1 (λ id m. all id (sort_texts-In id (keys s.cfg.models) m)),
    )
