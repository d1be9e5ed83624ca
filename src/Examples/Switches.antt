-- ===== src/Examples/Switches.antt =====
-- Eviction, switches and adoption between the two models of one gpu.
use llama_proxy.Prelude.{
  ◌⊎◌, ℕ, ◌≡◌, refl, sym, ap, subst, Option-cases, ◌∙◌, inl, inr, arith, true, false, none, some,
  [], ◌∷◌, Text, In, lookup, lookup→In-keys, insert, keys, is_empty, is_space, eq_text, eq_text_iff,
  trim_space, trim_left_if, trim_right_if, sort_texts, leb_text,
}
use llama_proxy.Config.{entry, default_background_group, start_ids, mode_coding, mode_background}
use llama_proxy.Config.Validation.{
  validate_scheduling, check_entries, check_entry, check_group, gpu_of, check_residents,
  claim_residents, check_pinned,
}
use llama_proxy.Scheduler.{touch_coding, Slot, Scheduler, running, pid_alive}
use llama_proxy.Scheduler.Arbitration.{
  Course, find_owner, acquire_gpu, start_on_demand, Outcome, done, fail,
}
use llama_proxy.Scheduler.Switching.{begin_switch}
use llama_proxy.Scheduler.Exclusive.{Holds, IsExclusive}
use llama_proxy.Scheduler.Overtaking.{overtaking, IsContested, start_on_demand-overtaken}
use llama_proxy.Scheduler.Eviction.{StartsNothing, start_on_demand-IsExclusive}
use llama_proxy.Scheduler.Targets.{
  IsTrimmed, KeysTrimmed, EntersNothing, switch_group-IsExclusive, switch_coding-IsExclusive,
}
use llama_proxy.Scheduler.Recovery.{reconcile_item}
use llama_proxy.Scheduler.Adoption.{IsShadowed, ShareProcess, reconcile_item_adopts}
use llama_proxy.Examples.{
  idle, three_models, name_a, name_c, system, busy, shadowed, model, slot_of,
}

busy-key : (j : Text) (x : Slot) → lookup j busy.procs ≡ some x → name_c ≡ j
unfolding keys
busy-key j x h = elim (lookup→In-keys j x busy.procs h) [ inl e ↦ e | inr bad ↦ absurd bad ]

busy-IsExclusive : IsExclusive system three_models busy.procs
busy-IsExclusive i j gpu full a b = sym (busy-key i a.slot a.entered) ∙ busy-key j b.slot b.entered

-- Meanwhile other goroutines note coding requests.
abbrev touching : Course
touching = record { env = λ n. system; others = λ n s. touch_coding system s }

abbrev started : Outcome (Scheduler × ℕ)
started = start_on_demand touching busy name_a

abbrev state_in : Outcome (Scheduler × ℕ) → Scheduler
state_in (done (t, ch)) = t
state_in (fail x) = busy

abbrev channel_in : Outcome (Scheduler × ℕ) → ℕ
channel_in (done (t, ch)) = ch
channel_in (fail x) = 0

started-done : started ≡ done (state_in started, channel_in started)
unfolding touch_coding start_on_demand acquire_gpu find_owner running pid_alive entry lookup eq_text
    is_empty keys trim_space trim_left_if trim_right_if is_space
started-done = refl

entry-name_a : entry three_models name_a ≡ some (model mode_background (48 ∷ []) true)
unfolding entry lookup eq_text trim_space trim_left_if trim_right_if is_space
entry-name_a = refl

touching-StartsNothing : StartsNothing touching
unfolding touch_coding
touching-StartsNothing = record { cfg_kept = λ n s. refl; quiet = λ n s j gpu held. held }

touching-EntersNothing : EntersNothing touching
unfolding touch_coding
touching-EntersNothing = record { cfg_kept = λ n s. refl; no_slot = λ n s j gone. gone }

start_on_demand-IsExclusive_example :
    (state_in started ≡ busy) ⊎ IsExclusive system three_models (state_in started).procs
start_on_demand-IsExclusive_example =
    start_on_demand-IsExclusive touching name_a (model mode_background (48 ∷ []) true)
      touching-StartsNothing busy (state_in started) (channel_in started) entry-name_a
      busy-IsExclusive started-done

three_models-valid : validate_scheduling three_models ≡ none
unfolding validate_scheduling check_entries check_entry check_group gpu_of check_residents
    claim_residents check_pinned default_background_group start_ids keys sort_texts leb_text lookup
    insert eq_text is_empty trim_space trim_left_if trim_right_if is_space
three_models-valid = refl

group-IsTrimmed : (i : Text) → In i (default_background_group three_models) → IsTrimmed i
unfolding default_background_group start_ids keys sort_texts leb_text lookup eq_text trim_space
    trim_left_if trim_right_if is_space
group-IsTrimmed i (inl e) = ap trim_space (sym e) ∙ e
group-IsTrimmed i (inr (inl e)) = ap trim_space (sym e) ∙ e
group-IsTrimmed i (inr (inr bad)) = absurd bad

name_c-IsTrimmed : IsTrimmed name_c
unfolding trim_space trim_left_if trim_right_if is_space
name_c-IsTrimmed = refl

busy-KeysTrimmed : KeysTrimmed busy.procs
busy-KeysTrimmed j held = elim (Option-cases (lookup j busy.procs)) [
  | inl nope ↦ absurd (held nope)
  | inr (x, at) ↦ subst IsTrimmed (busy-key j x at) name_c-IsTrimmed
]

switch_group-IsExclusive_example :
    IsExclusive system three_models
      (begin_switch touching busy (default_background_group three_models) mode_background).procs
switch_group-IsExclusive_example =
    switch_group-IsExclusive touching system busy touching-EntersNothing three_models-valid
      group-IsTrimmed busy-KeysTrimmed

switch_coding-IsExclusive_example :
    IsExclusive system three_models (begin_switch touching busy (name_c ∷ []) mode_coding).procs
switch_coding-IsExclusive_example =
    switch_coding-IsExclusive touching system busy name_c touching-EntersNothing three_models-valid
      name_c-IsTrimmed busy-KeysTrimmed

shadowed-IsShadowed : IsShadowed system shadowed name_a name_c
unfolding entry lookup eq_text trim_space trim_left_if trim_right_if is_space is_empty pid_alive
    running
shadowed-IsShadowed = record {
  crashed = slot_of none 0 7 false;
  config = model mode_background (48 ∷ []) true;
  entered = refl;
  configured = refl;
  other = λ e. absurd (ground (arith, eq_text_iff name_a name_c, e));
  shell_gone = refl;
  awake = refl;
  unready = refl;
  probed = refl;
  has_port = omega arith;
  server = 20;
  listens = refl;
  server_alive = refl;
  on_gpu = refl;
  holder = record {
    slot = slot_of none 20 7 true;
    config = model mode_coding (48 ∷ []) false;
    entered = refl;
    runs = refl;
    configured = refl;
    declares = refl;
  };
  served_by = refl;
}

reconcile_item_adopts_example :
    let t = reconcile_item system shadowed name_a true in
    ShareProcess system t name_a name_c shadowed-IsShadowed.server
    × (¬ IsExclusive system three_models t.procs)
reconcile_item_adopts_example =
    reconcile_item_adopts system shadowed name_a name_c shadowed-IsShadowed

-- A fourth model, on demand, declares the gpu of `a`.
abbrev name_d : Text
name_d = 100 ∷ []

abbrev contested : Scheduler
contested = record idle {
  cfg = record three_models {
    models = (name_d, model mode_background (48 ∷ []) false) ∷ three_models.models;
  };
}

contested-IsContested : IsContested system contested name_d name_a
unfolding default_background_group start_ids keys lookup eq_text sort_texts leb_text entry
    trim_space trim_left_if trim_right_if is_space is_empty acquire_gpu find_owner
contested-IsContested = record {
  wanted = model mode_background (48 ∷ []) false;
  other = model mode_background (48 ∷ []) true;
  wanted_entry = refl;
  other_entry = refl;
  different = λ e. absurd (ground (arith, eq_text_iff name_d name_a, e));
  same_gpu = refl;
  has_gpu = refl;
  shared = refl;
  in_group = inl refl;
  wanted_starts = (refl, (12, refl));
  other_starts = (refl, (12, refl));
  idle = refl;
  gpu_free = refl;
}

start_on_demand-overtaken_example :
    (t : Scheduler) × (ch : ℕ) × (start_on_demand (overtaking system) contested name_d
      ≡ done (t, ch))
    × Holds system contested.cfg t.procs name_d contested-IsContested.wanted.gpu
    × Holds system contested.cfg t.procs name_a contested-IsContested.wanted.gpu
start_on_demand-overtaken_example =
    start_on_demand-overtaken system contested name_d name_a contested-IsContested
