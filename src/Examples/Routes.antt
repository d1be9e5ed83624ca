-- ===== src/Examples/Routes.antt =====
-- A request for one model, its checks, and a scheduler whose coding model holds the lease.
use llama_proxy.Prelude.{◌≡◌, ◌↔◌, true, some, [], ◌∷◌, codes}
use llama_proxy.Config.{ProcessConfig}
use llama_proxy.Direct.{
  Waits, published_entry, select_specific_backend, Request, Limits, check_request, passes,
}
use llama_proxy.Direct.Checks.{IsAccepted, check_request-IsAccepted}
use llama_proxy.Direct.Errors.{is_busy, IsBlocked, select_specific_backend-is_busy}
use llama_proxy.Examples.{three_models, empty_pool, system, busy, name_a}

abbrev patient : Waits
patient = record { results = []; on_demand_ready = true; waited = true }

select_specific_backend-is_busy_example :
    (is_busy (select_specific_backend system patient (some three_models) busy empty_pool name_a).0
      ≡ true)
    ↔ ((e : ProcessConfig) × (published_entry (some three_models) name_a ≡ some e)
        × IsBlocked system busy e)
select_specific_backend-is_busy_example =
    select_specific_backend-is_busy system patient (some three_models) busy empty_pool name_a

abbrev limits : Limits
limits = record { api_key = 107 ∷ []; record_paths = codes "/v1/" ∷ []; max_request_bytes = 9 }

abbrev chat : Request
chat = record {
  authorization = codes "Bearer k";
  path = codes "/v1/chat";
  method = codes "POST";
  content_length = some 9;
  body_size = some 9;
}

check_request-IsAccepted_example : (check_request limits chat ≡ passes) ↔ IsAccepted limits chat
check_request-IsAccepted_example = check_request-IsAccepted limits chat
