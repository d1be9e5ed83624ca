-- ===== src/Direct.antt =====
-- The route to one model (proxy_backend.go: `selectSpecificBackend`, `selectScheduledModel`), and the
-- checks of a request before it is forwarded (proxy.go: `handleProxy`). `waited` tells whether the
-- ready channel closes before the request ends; a channel that nothing closes never does.
pub mod Checks
pub mod Errors
use llama_proxy.Prelude.{
  ℕ, Bool, true, false, not, ◌&&◌, ◌||◌, Option, none, some, List, [], ◌∷◌, ◌++◌, Text, codes,
  is_empty, is_some, eq_text, trim_space, trim_right_if, if◌then◌else◌, ltb, ◌==◌,
}
use llama_proxy.Config.{
  ProcessConfig, BackendConfig, SchedulingConfig, entry, is_coding, is_background,
}
use llama_proxy.Balancer.{Balancer, get_backend_by_model}
use llama_proxy.Routing.{should_record_proxy}
use llama_proxy.Scheduler.{
  Env, Scheduler, touch_coding, touch_model, is_coding_active, model_enter, model_leave,
}
use llama_proxy.Scheduler.Queries.{base_url_for}
use llama_proxy.Scheduler.Switching.{Wait}
use llama_proxy.Scheduler.Ensure.{Channel, of_slot, never, errors, ensure_model}
use llama_proxy.Pool.{scheduler_forward_bc_for}
use llama_proxy.Proxy.{Candidate, candidate_of, is_slash}

abbrev pub proxy_model_id : Text
proxy_model_id = codes "llm_proxy"

-- The errors of the selection.
pub data SelectError : Type 0 where
  unknown_model : Text → SelectError
  coding_active : Text → SelectError
  start_failed : Text → SelectError
  wait_ended : Text → SelectError
  not_ready : Text → SelectError

-- `handleProxy` answers 400 but for a `statusError`.
unfoldable pub code_of : SelectError → ℕ
code_of (coding_active id) = 503
code_of e = 400

pub data Selected : Type 0 where
  selected : Candidate → Selected
  refused : SelectError → Selected

-- What else a selection takes from outside.
pub record Waits : Type 0 where
  pub results : List (Text × Wait)
  pub on_demand_ready : Bool
  pub waited : Bool

-- The first part of `selectScheduledModel`: the touches.
unfoldable pub touch : Env → Scheduler → Text → ProcessConfig → Scheduler
touch env s id e =
    let coded = if is_coding e then touch_coding env s else s in
    if is_background e then touch_model env coded id else coded

-- A background model whose gpu the coding model has taken is not served.
unfoldable pub is_blocked : Env → Scheduler → ProcessConfig → Bool
is_blocked env s e =
    is_background e && (not e.resident && (not (is_empty e.gpu) && is_coding_active env s))

-- The last part, once the ready channel is closed.
unfoldable pub scheduled_candidate : Env → Scheduler → Text → ProcessConfig → Selected × Scheduler
scheduled_candidate env s id e =
    let base = base_url_for env s id in
    let t = if is_coding e then touch_coding env s else s in
    if is_empty base then (refused (not_ready id), s) else (
      selected (record {
        url = trim_right_if is_slash base;
        cfg = some (scheduler_forward_bc_for t id);
        sched_model = id;
      }),
      t,
    )

-- The wait for the channel.
abbrev pub closes : Waits → Channel → Bool
closes w of_slot = w.waited
closes w never = false
closes w errors = false

unfoldable pub select_scheduled_model :
    Env → Waits → Scheduler → Text → ProcessConfig → Selected × Scheduler
unfolding touch is_blocked scheduled_candidate
select_scheduled_model env w s id e =
    let t = touch env s id e in
    let r = ensure_model env w.results w.on_demand_ready t id in
    if is_blocked env t e then (refused (coding_active id), t) else elim r.1 [
      | errors ↦ (refused (start_failed id), r.0)
      | ch ↦
          if closes w ch then scheduled_candidate env r.0 id e else (refused (wait_ended id), r.0)
    ]

-- The entry of the published configuration, which may be newer than that of the scheduler.
abbrev pub published_entry : Option SchedulingConfig → Text → Option ProcessConfig
published_entry none id = none
published_entry (some sc) id = entry sc id

-- `selectSpecificBackend` on a server with a scheduler and a balancer; `sc` is `schedulingConfig()`.
unfoldable pub select_specific_backend :
    {B : Type 0}
    → Env
    → Waits
    → Option SchedulingConfig
    → Scheduler
    → Balancer B
    → Text
    → Selected × Scheduler
unfolding select_scheduled_model
select_specific_backend env w sc s bb req_model = elim (published_entry sc req_model) [
  | some e ↦ select_scheduled_model env w s req_model e
  | none ↦ elim (get_backend_by_model bb req_model) [
    | some b ↦ (selected (candidate_of b), s)
    | none ↦ (refused (unknown_model req_model), s)
  ]
]

-- Whether a request is for one model.
unfoldable pub is_specific : Text → Bool
is_specific req_model = not (is_empty req_model) && not (eq_text req_model proxy_model_id)

-- The parts of a request that the checks read; `content_length` is none where it is unknown, and
-- `body_size` counts the bytes that its body holds, none where reading it fails.
pub record Request : Type 0 where
  pub authorization : Text
  pub path : Text
  pub method : Text
  pub content_length : Option ℕ
  pub body_size : Option ℕ

-- The settings that they read; 0 bytes is no limit.
pub record Limits : Type 0 where
  pub api_key : Text
  pub record_paths : List Text
  pub max_request_bytes : ℕ

pub data Check : Type 0 where
  passes : Check
  lists_models : Check
  answers : (status : ℕ) → Check

abbrev pub over : Limits → Option ℕ → Bool
over l none = false
over l (some n) = ltb 0 l.max_request_bytes && ltb l.max_request_bytes n

-- The checks of `handleProxy` in their order, with those of `ReadWithLimit`
-- (internal/httpx/httpx.go).
unfoldable pub check_request : Limits → Request → Check
check_request l r =
    if not (is_empty l.api_key)
      && not (eq_text (trim_space r.authorization) (codes "Bearer " ++ l.api_key))
    then answers 401
    else if eq_text r.path (codes "/v1/models")
        && (eq_text r.method (codes "GET") || eq_text r.method (codes "HEAD"))
    then lists_models
    else if not (should_record_proxy l.record_paths r.path)
    then answers 404
    else if over l r.content_length
    then answers 413
    else elim r.body_size [
      | none ↦ answers 400
      | some n ↦ if over l (some n) then answers 413 else passes
    ]
