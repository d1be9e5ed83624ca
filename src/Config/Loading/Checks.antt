-- ===== src/Config/Loading/Checks.antt =====
-- What `Load` guarantees of a configuration that it accepts (internal/config/config.go, routing.go, scheduling.go).
use llama_proxy.Prelude.{
  ◌*◌, ◌≢◌, ℤ, pos, negsuc, ℕ, ◌+◌, ◌<◌, ◌≡◌, ◌≢◌, refl, sym, ap, ◌∙◌, Bool, false, Option, none,
  some, List, [], ◌∷◌, arith, Text, Map, In, lookup, is_empty, trim_space, ◌⊎◌, inl, inr,
  Bool-cases, Option-cases, eq_text, eq_text→eq, subst, length,
}
use llama_proxy.Config.{ProcessConfig, BackendConfig, SchedulingConfig, RoutingRule, YamlConfig}
use llama_proxy.Config.Gpu.{IsValid, validate_scheduling-IsValid}
use llama_proxy.Config.ModelIds.{validate_model_ids-exact, configured_ids, IsUnambiguous}
use llama_proxy.Config.Ports.Collisions.{validate_port_collisions-IsCollisionFree, IsCollisionFree}
use llama_proxy.Config.Loading.{
  RawEntry, Decoded, scalar, mapping, default_paths, proxy_defaults, backend_defaults,
  model_defaults, duration_or, second, scheduling_defaults, set_config_defaults, validate_rules,
  validate_routing, decode_entries, decode_scheduling_models, is_reserved, check_loaded, complete,
  load, check_legacy_routing,
}

-- Every rule names a pool and a condition.
abbrev IsUsable : RoutingRule → Type 0
IsUsable r = (is_empty (trim_space r.pool) ≡ false) × (0 < length r.header)

validate_rules-IsUsable :
    (i : ℕ) (rules : List RoutingRule) (r : RoutingRule)
    → validate_rules i rules ≡ none
    → In r rules
    → IsUsable r
unfolding validate_rules
validate_rules-IsUsable i [] r ok here = absurd here
validate_rules-IsUsable i (q ∷ rules) r ok (inl e) =
    rw (sym e) (ground (arith, ok), ground (arith, ok))
validate_rules-IsUsable i (q ∷ rules) r ok (inr later) =
    validate_rules-IsUsable (i + 1) rules r (ground (arith, ok)) later

backend_defaults-weight :
    (bs : List BackendConfig) (b : BackendConfig) → In b (backend_defaults bs) → 0 < b.weight
unfolding backend_defaults
backend_defaults-weight [] b h = absurd h
backend_defaults-weight (d ∷ bs) b (inl e) = ground (arith, ap (λ (x : BackendConfig). x.weight) e)
backend_defaults-weight (d ∷ bs) b (inr h) = backend_defaults-weight bs b h

model_defaults-lookup :
    (m : Map ProcessConfig) (id : Text) (e : ProcessConfig)
    → lookup id (model_defaults m) ≡ some e
    → (d : ProcessConfig) × (lookup id m ≡ some d) × (d.gpu ≡ e.gpu) × (0 < e.weight)
unfolding model_defaults lookup
model_defaults-lookup [] id e h = cc
model_defaults-lookup ((j, d) ∷ m) id e h = elim (Bool-cases (eq_text j id)) [
  | inl same ↦ (d, ground (arith, same), ground (arith, h, same), ground (arith, h, same))
  | inr other ↦
      let (d', found, gpu, weight) = model_defaults-lookup m id e (ground (arith, h, other)) in
      (d', ground (arith, other, found), gpu, weight)
]

Sum-cases : {A B : Type 0} (r : A ⊎ B) → ((a : A) × (r ≡ inl a)) ⊎ ((b : B) × (r ≡ inr b))
Sum-cases (inl a) = inl (a, refl)
Sum-cases (inr b) = inr (b, refl)

-- What is decoded has no reserved name, and its gpu is in the normal form.
abbrev IsDecoded : (Text → Text) → Text → ProcessConfig → Type 0
IsDecoded upper id e = (is_reserved id ≡ false) × ((g : Text) × (e.gpu ≡ upper (trim_space g)))

decode_mapping :
    (upper : Text → Text) (key : Text) (d : ProcessConfig) (raw : Map RawEntry) (c : Bool)
    (m : Map ProcessConfig)
    → is_reserved key ≡ false
    → decode_entries upper ((key, mapping c (some d)) ∷ raw) ≡ inr m
    → (rest : Map ProcessConfig) × (decode_entries upper raw ≡ inr rest)
      × (m ≡ (key, record d { gpu = upper (trim_space d.gpu) }) ∷ rest)
unfolding decode_entries
decode_mapping upper key d raw c m free h = elim (Sum-cases (decode_entries upper raw)) [
  | inl (x, bad) ↦ ground (arith, free, h, bad)
  | inr (rest, good) ↦ (rest, good, ground (arith, free, h, good))
]

decode_entries-lookup :
    (upper : Text → Text) (raw : Map RawEntry) (m : Map ProcessConfig) (id : Text)
    (e : ProcessConfig)
    → decode_entries upper raw ≡ inr m
    → lookup id m ≡ some e
    → IsDecoded upper id e
unfolding decode_entries lookup
decode_entries-lookup upper [] m id e h found =
    let empty : m ≡ [] = ground (arith, h) in ground (arith, empty, found)
decode_entries-lookup upper ((key, scalar) ∷ raw) m id e h found =
    elim (Bool-cases (is_reserved key)) [
      | inl reserved ↦ decode_entries-lookup upper raw m id e (ground (arith, h, reserved)) found
      | inr free ↦ ground (arith, h, free)
    ]
decode_entries-lookup upper ((key, mapping c none) ∷ raw) m id e h found =
    elim (Bool-cases (is_reserved key)) [
      | inl reserved ↦ decode_entries-lookup upper raw m id e (ground (arith, h, reserved)) found
      | inr free ↦ ground (arith, h, free)
    ]
decode_entries-lookup upper ((key, mapping c (some d)) ∷ raw) m id e h found =
    elim (Bool-cases (is_reserved key)) [
      | inl reserved ↦ decode_entries-lookup upper raw m id e (ground (arith, h, reserved)) found
      | inr free ↦
          let (rest, good, cons) = decode_mapping upper key d raw c m free h in
          elim (Bool-cases (eq_text key id)) [
            | inl same ↦ (
              subst (λ k. is_reserved k ≡ false) (eq_text→eq key id same) free,
              (d.gpu, ground (arith, cons, same, found)),
            )
            | inr other ↦
                decode_entries-lookup upper raw rest id e good (ground (arith, cons, other, found))
          ]
    ]

paths_full :
    (paths : List Text)
    → elim paths as (λ _. List Text) [ [] ↦ default_paths | x ∷ xs ↦ x ∷ xs ] ≢ []
paths_full [] h = cc
paths_full (x ∷ xs) h = cc

duration_or-nonzero : (d : ℕ) (t : ℤ) → 0 < d → duration_or d t ≢ pos 0
unfolding duration_or
duration_or-nonzero d (pos n) h e = ground (arith, h, e)
duration_or-nonzero d (negsuc n) h e = cc

module _ (struct_valid : YamlConfig → Bool) (parse_url : Text → Option (Text × Text))
    (canonical upper : Text → Text) where
  -- What an accepted configuration has in its section `scheduling`.
  pub record IsScheduled (c : YamlConfig) (sc : SchedulingConfig) : Type 0 where
    pub decoded :
        (id : Text) (e : ProcessConfig) → lookup id sc.models ≡ some e → IsDecoded upper id e
    pub weights : (id : Text) (e : ProcessConfig) → lookup id sc.models ≡ some e → 0 < e.weight
    pub valid : IsValid sc
    pub collision_free : IsCollisionFree parse_url c sc
    pub lease : sc.lease.coding_idle_timeout ≢ pos 0
    pub waits :
        (sc.switch.drain_timeout ≢ pos 0)
        × (sc.switch.kill_timeout ≢ pos 0)
        × (sc.switch.startup_timeout ≢ pos 0)

  pub record IsReady (c : YamlConfig) : Type 0 where
    pub rules :
        (rules : List RoutingRule)
        → c.routing ≡ some rules
        → (r : RoutingRule) → In r rules
        → IsUsable r
    pub weights : (b : BackendConfig) → In b c.backends → 0 < b.weight
    pub unambiguous : IsUnambiguous (configured_ids c)
    pub scheduled : (sc : SchedulingConfig) → c.scheduling ≡ some sc → IsScheduled c sc
    pub limits : (0 < c.proxy.max_request_bytes) × (0 < c.proxy.request_timeout)
    pub paths : c.proxy.record_paths ≢ []

  load-inv :
      (d : Option Decoded) (c : YamlConfig)
      → load struct_valid parse_url canonical upper d ≡ inr c
      → (d' : Decoded) × (c' : YamlConfig) × (complete canonical upper d' ≡ inr c')
        × (c ≡ set_config_defaults c')
        × (check_loaded struct_valid parse_url c ≡ none)
  unfolding load
  load-inv none c h = cc
  load-inv (some d) c h = elim (Option-cases (check_legacy_routing 0 d.legacy)) [
    | inr (x, bad) ↦ ground (arith, h, bad)
    | inl good ↦ elim (Sum-cases (complete canonical upper d)) [
      | inl (x, bad) ↦ ground (arith, h, good, bad)
      | inr (c', done) ↦
          elim (Option-cases (check_loaded struct_valid parse_url (set_config_defaults c'))) [
            | inr (x, bad) ↦ ground (arith, h, good, done, bad)
            | inl ok ↦
                let e : c ≡ set_config_defaults c' = ground (arith, h, good, done, ok) in
                (d, c', done, e, rw e ok)
          ]
    ]
  ]

  complete-scheduling :
      (d : Decoded) (c : YamlConfig) (sc : SchedulingConfig)
      → complete canonical upper d ≡ inr c
      → c.scheduling ≡ some sc
      → decode_scheduling_models upper d.raw ≡ inr sc.models
  unfolding complete
  complete-scheduling d c sc h on = elim (Option-cases d.yaml.scheduling) [
    | inl off ↦ ground (arith, h, on, off)
    | inr (old, there) ↦ elim (Sum-cases (decode_scheduling_models upper d.raw)) [
      | inl (x, bad) ↦ ground (arith, h, on, there, bad)
      | inr (m, good) ↦ ground (arith, h, on, there, good)
    ]
  ]

  models_decoded :
      (raw : Map RawEntry) (m : Map ProcessConfig)
      → decode_scheduling_models upper raw ≡ inr m
      → decode_entries upper raw ≡ inr m
  unfolding decode_scheduling_models
  models_decoded raw m h = ground (arith, h)

  load-IsScheduled :
      (d : Decoded) (c : YamlConfig) (sc : SchedulingConfig)
      → complete canonical upper d ≡ inr c
      → (set_config_defaults c).scheduling ≡ some sc
      → check_loaded struct_valid parse_url (set_config_defaults c) ≡ none
      → IsScheduled (set_config_defaults c) sc
  unfolding set_config_defaults scheduling_defaults check_loaded
  load-IsScheduled d c sc done on ok = elim (Option-cases c.scheduling) [
    | inl off ↦ ground (arith, on, off)
    | inr (old, there) ↦
        let e : sc ≡ scheduling_defaults old = ground (arith, on, there) in
        let raw = models_decoded d.raw old.models (complete-scheduling d c old done there) in
        record {
          decoded = λ id x h.
              let (y, found, gpu, w) = model_defaults-lookup old.models id x (cc (e, h)) in
              let (free, (g, eq)) = decode_entries-lookup upper d.raw old.models id y raw found in
              (free, (g, sym gpu ∙ eq));
          weights = λ id x h.
              let (y, found, gpu, w) = model_defaults-lookup old.models id x (cc (e, h)) in w;
          valid = validate_scheduling-IsValid sc (ground (arith, ok, on));
          collision_free =
              validate_port_collisions-IsCollisionFree parse_url (set_config_defaults c) sc on
                (ground (arith, ok, on));
          lease =
              rw e
                (duration_or-nonzero (1800 * second) old.lease.coding_idle_timeout (omega arith));
          waits = rw e (
            duration_or-nonzero (10 * second) old.switch.drain_timeout (omega arith),
            duration_or-nonzero (10 * second) old.switch.kill_timeout (omega arith),
            duration_or-nonzero (120 * second) old.switch.startup_timeout (omega arith),
          );
        }
  ]

  load_complete :
      (d : Decoded) (c : YamlConfig)
      → complete canonical upper d ≡ inr c
      → check_loaded struct_valid parse_url (set_config_defaults c) ≡ none
      → IsReady (set_config_defaults c)
  unfolding check_loaded validate_routing
  load_complete d c done ok = record {
    rules = λ rules on r here. validate_rules-IsUsable 0 rules r (ground (arith, ok, on)) here;
    weights = λ b. unfold set_config_defaults in backend_defaults-weight c.backends b;
    unambiguous = (validate_model_ids-exact (set_config_defaults c)).0 (ground (arith, ok));
    scheduled = λ sc on. load-IsScheduled d c sc done on ok;
    limits = unfold set_config_defaults in unfold proxy_defaults in (ground arith, ground arith);
    paths = unfold set_config_defaults in unfold proxy_defaults in paths_full c.proxy.record_paths;
  }

  -- A configuration that `Load` accepts: every routing rule has a pool and a header condition; every backend
  -- and every model has a positive weight; the ids that requests name are unambiguous; the limit
  -- of a request and its timeout are positive, and some path is recorded. Its models pass
  -- `validateScheduling` and `ValidatePortCollisions`, none is called lease or switch, each gpu is trimmed and
  -- upper-cased, and neither the lease nor a wait is zero.
  pub load-IsReady :
      (d : Option Decoded) (c : YamlConfig)
      → load struct_valid parse_url canonical upper d ≡ inr c
      → IsReady c
  load-IsReady d c h =
      let (d', c', done, e, ok) = load-inv d c h in
      subst IsReady (sym e)
        (load_complete d' c' done (subst (λ x. check_loaded struct_valid parse_url x ≡ none) e ok))
