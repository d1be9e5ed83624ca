-- ===== src/Reload/Notice.antt =====
-- What a reload applies of a changed section `scheduling`, and what it reports (config_watch.go).
use llama_proxy.Prelude.{
  ◌≡◌, refl, sym, ap, ◌∙◌, ◌≢◌, Bool, true, false, Option, none, some, List, [], ◌∷◌, arith, Text,
  Map, keys, ◌==◌, lookup, eq_text, eq_text_refl, eq_text_iff, In, inl, inr, Bool-cases,
}
use llama_proxy.Config.{
  ProcessConfig, SchedulingConfig, YamlConfig, default_background_group, start_ids,
}
use llama_proxy.Config.Loading.{LegacyConfig}
use llama_proxy.Balancer.{Strategies}
use llama_proxy.Scheduler.{Scheduler, set_timings}
use llama_proxy.Reload.{
  Server, Setting, scheduling, listen_addr, data_dir, database, poll_interval, poll_backend_metrics,
  SchedulingLaunch, same_bool, same_database, launch_entries, process_launch, same_texts,
  same_scheduling_launch, restart_required, reload_config, reload_scheduler, unless,
}

-- The same models with other gpus.
unfoldable pub with_gpus : (Text → Text) → Map ProcessConfig → Map ProcessConfig
with_gpus gpu [] = []
with_gpus gpu ((id, e) ∷ m) = (id, record e { gpu = gpu id }) ∷ with_gpus gpu m

launch_entries-with_gpus :
    (gpu : Text → Text) (m : Map ProcessConfig)
    → launch_entries (with_gpus gpu m) ≡ launch_entries m
unfolding launch_entries with_gpus
launch_entries-with_gpus gpu [] = refl
launch_entries-with_gpus gpu ((id, e) ∷ m) = rw (launch_entries-with_gpus gpu m) refl

keys-with_gpus : (gpu : Text → Text) (m : Map ProcessConfig) → keys (with_gpus gpu m) ≡ keys m
unfolding keys with_gpus
keys-with_gpus gpu [] = refl
keys-with_gpus gpu ((id, e) ∷ m) = ap (λ r. id ∷ r) (keys-with_gpus gpu m)

lookup-with_gpus :
    (gpu : Text → Text) (m : Map ProcessConfig) (id : Text)
    → lookup id (with_gpus gpu m) ≡ (elim (lookup id m) as (λ _. Option ProcessConfig) [
      | none ↦ none
      | some e ↦ some (record e { gpu = gpu id })
    ])
unfolding lookup with_gpus
lookup-with_gpus gpu [] id = refl
lookup-with_gpus gpu ((j, e) ∷ m) id = elim (Bool-cases (eq_text j id)) [
  | inl same ↦ ground (arith, same, ap gpu ((eq_text_iff j id).0 same))
  | inr other ↦ rw other (lookup-with_gpus gpu m id)
]

start_ids-with_gpus :
    (gpu : Text → Text) (m : Map ProcessConfig) (ids : List Text)
    → start_ids (with_gpus gpu m) ids ≡ start_ids m ids
unfolding start_ids
start_ids-with_gpus gpu m [] = refl
start_ids-with_gpus gpu m (id ∷ ids) =
    ground (arith, lookup-with_gpus gpu m id, start_ids-with_gpus gpu m ids)

process_launch-with_gpus :
    (gpu : Text → Text) (sc : SchedulingConfig)
    → process_launch (some (record sc { models = with_gpus gpu sc.models }))
      ≡ process_launch (some sc)
unfolding process_launch default_background_group
process_launch-with_gpus gpu sc =
    rw
      (
        launch_entries-with_gpus gpu sc.models,
        keys-with_gpus gpu sc.models,
        start_ids-with_gpus gpu sc.models (keys sc.models),
      )
      refl

same_texts_refl : (xs : List Text) → same_texts xs xs ≡ true
unfolding same_texts
same_texts_refl [] = refl
same_texts_refl (x ∷ xs) = ground (arith, eq_text_refl x, same_texts_refl xs)

same_scheduling_launch_refl : (a : SchedulingLaunch) → same_scheduling_launch a a ≡ true
unfolding same_scheduling_launch
same_scheduling_launch_refl a = ground (arith, eq_text_refl a.default, same_texts_refl a.entries)

unless-skip :
    (x y : Setting) (b : Bool) (rest : List Setting) → y ≢ x → In x (unless b y rest) → In x rest
unless-skip x y true rest other h = h
unless-skip x y false rest other (inl e) = absurd (other e)
unless-skip x y false rest other (inr h) = h

unless-none : (x y : Setting) (b : Bool) → b ≡ true → ¬ In x (unless b y [])
unless-none x y true e h = h
unless-none x y false e h = cc

-- `scheduling` is reported only if the launch has changed.
restart_required-quiet :
    (old : LegacyConfig) (old_yaml : YamlConfig) (l : LegacyConfig) (c : YamlConfig)
    → process_launch c.scheduling ≡ process_launch old_yaml.scheduling
    → ¬ In scheduling (restart_required old old_yaml l c)
unfolding restart_required
restart_required-quiet old old_yaml l c e h =
    let launch =
      same_scheduling_launch (process_launch old_yaml.scheduling) (process_launch c.scheduling) in
    let last = unless launch scheduling [] in
    let interval = l.poll_interval == old.poll_interval in
    let from_interval = unless interval poll_interval last in
    let metrics = same_bool l.poll_backend_metrics old.poll_backend_metrics in
    let from_metrics = unless metrics poll_backend_metrics from_interval in
    let stored = same_database old_yaml.database c.database in
    let from_stored = unless stored database from_metrics in
    let dir = eq_text l.data_dir old.data_dir in
    let from_dir = unless dir data_dir from_stored in
    unless-none scheduling scheduling launch
      (ap (same_scheduling_launch (process_launch old_yaml.scheduling)) e
        ∙ same_scheduling_launch_refl (process_launch old_yaml.scheduling))
      (unless-skip scheduling poll_interval interval last (λ d. cc)
        (unless-skip scheduling poll_backend_metrics metrics from_interval (λ d. cc)
          (unless-skip scheduling database stored from_metrics (λ d. cc)
            (unless-skip scheduling data_dir dir from_stored (λ d. cc)
              (unless-skip scheduling listen_addr (eq_text l.listen_addr old.listen_addr) from_dir
                (λ d. cc) h)))))

-- A file that gives the models other gpus and changes nothing else of the section `scheduling` is not
-- reported as wanting a restart for it, and the scheduler keeps the models, with the gpus that it had.
pub reload_config-unnoticed :
    {B : Type 0} (S : Strategies B) (s : Server B) (l : LegacyConfig) (c : YamlConfig)
    (sc : SchedulingConfig) (sch : Scheduler) (gpu : Text → Text)
    → s.yaml_cfg.scheduling ≡ some sc
    → c.scheduling ≡ some (record sc { models = with_gpus gpu sc.models })
    → s.scheduler ≡ some sch
    → (¬ In scheduling (reload_config S s l c).1)
      × ((next : Scheduler) × ((reload_config S s l c).0.scheduler ≡ some next)
          × (next.cfg ≡ sch.cfg))
unfolding reload_config restart_required reload_scheduler
reload_config-unnoticed S s l c sc sch gpu old new on = (
  restart_required-quiet s.cfg s.yaml_cfg l c
      (ap process_launch new ∙ process_launch-with_gpus gpu sc ∙ ap process_launch (sym old)),
  (
    set_timings sch sc.lease.coding_idle_timeout sc.switch,
    ground (arith, on, new),
    unfold set_timings in refl,
  ),
)
