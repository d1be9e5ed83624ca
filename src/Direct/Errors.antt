-- ===== src/Direct/Errors.antt =====
-- Which requests for one model are refused, and what a selected model guarantees (proxy_backend.go).
use llama_proxy.Prelude.{
  ◌≡◌, refl, sym, ◌∙◌, inl, inr, ◌↔◌, Bool, true, false, Option, some, ◌++◌, arith, Text, is_empty,
  lookup, if◌then◌else◌, ◌==◌, Bool-cases, Option-cases,
}
use llama_proxy.Config.{ProcessConfig, SchedulingConfig, is_background}
use llama_proxy.Balancer.{Balancer, get_backend_by_model}
use llama_proxy.Scheduler.{
  Env, Slot, Scheduler, touch_coding, touch_model, is_coding_active, coding_proc_running,
}
use llama_proxy.Scheduler.Queries.{base_url_for}
use llama_proxy.Scheduler.Ensure.{of_slot, never, errors, ensure_model}
use llama_proxy.Proxy.{Candidate, node_of}
use llama_proxy.Pool.{scheduler_forward_bc_for, local_node_name_prefix}
use llama_proxy.Direct.{
  start_failed, wait_ended, code_of, Selected, selected, refused, Waits, touch, is_blocked,
  scheduled_candidate, published_entry, closes, select_scheduled_model, select_specific_backend,
}

-- The answer is the status 503.
unfoldable pub is_busy : Selected → Bool
unfolding code_of
is_busy (selected c) = false
is_busy (refused e) = code_of e == 503

touch-cfg :
    (env : Env) (s : Scheduler) (id : Text) (e : ProcessConfig) → (touch env s id e).cfg ≡ s.cfg
unfolding touch touch_coding touch_model
touch-cfg env s id e = ground arith

touch-procs :
    (env : Env) (s : Scheduler) (id : Text) (e : ProcessConfig) → (touch env s id e).procs ≡ s.procs
unfolding touch touch_coding touch_model
touch-procs env s id e = ground arith

touch-is_coding_active :
    (env : Env) (s : Scheduler) (id : Text) (e : ProcessConfig)
    → is_coding_active env (touch env s id e) ≡ is_coding_active env s
unfolding is_coding_active coding_proc_running
touch-is_coding_active env s id e = rw (touch-cfg env s id e, touch-procs env s id e)

-- The model needs the gpu that a running coding model has taken.
pub record IsBlocked (env : Env) (s : Scheduler) (e : ProcessConfig) : Type 0 where
  pub background : is_background e ≡ true
  pub shared : e.resident ≡ false
  pub declares : is_empty e.gpu ≡ false
  pub coding : is_coding_active env s ≡ true

is_blocked-IsBlocked :
    (env : Env) (s : Scheduler) (id : Text) (e : ProcessConfig)
    → (is_blocked env (touch env s id e) e ≡ true) ↔ IsBlocked env s e
unfolding is_blocked
is_blocked-IsBlocked env s id e = (
  λ h. record {
    background = ground (arith, h);
    shared = ground (arith, h);
    declares = ground (arith, h);
    coding = sym (touch-is_coding_active env s id e) ∙ ground (arith, h);
  },
  λ b.
      ground
        (arith, b.background, b.shared, b.declares, b.coding, touch-is_coding_active env s id e),
)

scheduled_candidate-is_busy :
    (env : Env) (s : Scheduler) (id : Text) (e : ProcessConfig)
    → is_busy (scheduled_candidate env s id e).0 ≡ false
unfolding scheduled_candidate is_busy
scheduled_candidate-is_busy env s id e = ground arith

closed-is_busy :
    (env : Env) (s : Scheduler) (id : Text) (e : ProcessConfig) (b : Bool)
    → is_busy (if b then scheduled_candidate env s id e else (refused (wait_ended id), s)).0 ≡ false
unfolding is_busy
closed-is_busy env s id e true = scheduled_candidate-is_busy env s id e
closed-is_busy env s id e false = refl

unblocked-is_busy :
    (env : Env) (w : Waits) (s : Scheduler) (id : Text) (e : ProcessConfig)
    → is_blocked env (touch env s id e) e ≡ false
    → is_busy (select_scheduled_model env w s id e).0 ≡ false
unfolding select_scheduled_model is_busy
unblocked-is_busy env w s id e free =
    let r = ensure_model env w.results w.on_demand_ready (touch env s id e) id in
    rw free
      (elim r.1
        as (λ ch.
          is_busy
            (elim ch as (λ c. Selected × Scheduler) [
              | errors ↦ (refused (start_failed id), r.0)
              | c ↦
                  if closes w c
                  then scheduled_candidate env r.0 id e
                  else (refused (wait_ended id), r.0)
            ]).0
          ≡ false) [
            | errors ↦ refl
            | of_slot ↦ closed-is_busy env r.0 id e w.waited
            | never ↦ refl
          ])

select_scheduled_model-is_busy :
    (env : Env) (w : Waits) (s : Scheduler) (id : Text) (e : ProcessConfig)
    → is_busy (select_scheduled_model env w s id e).0 ≡ is_blocked env (touch env s id e) e
unfolding select_scheduled_model is_busy
select_scheduled_model-is_busy env w s id e =
    elim (Bool-cases (is_blocked env (touch env s id e) e)) [
      | inl b ↦ ground (arith, b)
      | inr b ↦ unblocked-is_busy env w s id e b ∙ sym b
    ]

select_specific_backend-entry :
    {B : Type 0} (env : Env) (w : Waits) (sc : Option SchedulingConfig) (s : Scheduler)
    (bb : Balancer B) (id : Text) (e : ProcessConfig)
    → published_entry sc id ≡ some e
    → is_busy (select_specific_backend env w sc s bb id).0 ≡ is_blocked env (touch env s id e) e
unfolding select_specific_backend is_busy
select_specific_backend-entry env w sc s bb id e known =
    rw (known, is_busy) (select_scheduled_model-is_busy env w s id e)

-- The selection of the backend for a request for one model refuses the request with the status 503, before any backend
-- is asked, exactly when the published configuration has a background model of that id that is not resident, declares a
-- gpu, and finds the coding model active.
pub select_specific_backend-is_busy :
    {B : Type 0} (env : Env) (w : Waits) (sc : Option SchedulingConfig) (s : Scheduler)
    (bb : Balancer B) (id : Text)
    → (is_busy (select_specific_backend env w sc s bb id).0 ≡ true)
      ↔ ((e : ProcessConfig) × (published_entry sc id ≡ some e) × IsBlocked env s e)
unfolding select_specific_backend is_busy
select_specific_backend-is_busy env w sc s bb id = elim (Option-cases (published_entry sc id)) [
  | inl unknown ↦ (
    λ busy. elim (Option-cases (get_backend_by_model bb id)) [
      | inl gone ↦ ground (arith, unknown, gone, busy)
      | inr (b, found) ↦ ground (arith, unknown, found, busy)
    ],
    λ (e, known, b). ground (arith, unknown, known),
  )
  | inr (e, known) ↦ (
    λ busy. (
      e,
      known,
      (is_blocked-IsBlocked env s id e).0
          (sym (select_specific_backend-entry env w sc s bb id e known) ∙ busy),
    ),
    λ (e', known', b).
        select_specific_backend-entry env w sc s bb id e' known'
        ∙ (is_blocked-IsBlocked env s id e').1 b,
  )
]

-- What the candidate of a scheduled model promises, in the state that the selection leaves.
pub record IsServing (s : Scheduler) (id : Text) (c : Candidate) : Type 0 where
  pub model : c.sched_model ≡ id
  pub node : node_of c ≡ local_node_name_prefix ++ id
  pub ready : (sl : Slot) × (lookup id s.procs ≡ some sl) × (sl.ready_ok ≡ true)

base_url_for-ready :
    (env : Env) (s : Scheduler) (id : Text)
    → is_empty (base_url_for env s id) ≡ false
    → (sl : Slot) × (lookup id s.procs ≡ some sl) × (sl.ready_ok ≡ true)
unfolding base_url_for is_empty
base_url_for-ready env s id h = elim (Option-cases (lookup id s.procs)) [
  | inl gone ↦ ground (arith, gone, h)
  | inr (sl, found) ↦ elim (Bool-cases sl.ready_ok) [
    | inl ok ↦ (sl, found, ok)
    | inr bad ↦ ground (arith, found, bad, h)
  ]
]

-- A scheduled model that is selected is ready in the state that the selection leaves, and the candidate
-- names it and its local node.
pub scheduled_candidate-IsServing :
    (env : Env) (s : Scheduler) (id : Text) (e : ProcessConfig) (c : Candidate)
    → (scheduled_candidate env s id e).0 ≡ selected c
    → IsServing (scheduled_candidate env s id e).1 id c
unfolding scheduled_candidate node_of scheduler_forward_bc_for touch_coding
scheduled_candidate-IsServing env s id e c h =
    elim (Bool-cases (is_empty (base_url_for env s id))) [
      | inl empty ↦ ground (arith, empty, h)
      | inr there ↦
          let (sl, found, ok) = base_url_for-ready env s id there in
          record {
            model = ground (arith, h, there);
            node = ground (arith, h, there);
            ready = (sl, ground (arith, h, there, found), ok);
          }
    ]
