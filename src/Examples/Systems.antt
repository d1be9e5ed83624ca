-- ===== src/Examples/Systems.antt =====
-- Processes, a reloaded server, a copied response, a filter, a hub and headers.
use mathlib.Core.List.Permᴰ
use llama_proxy.Prelude.{
  ◌≤◌, or_else, ◌/◌, ◌<◌, length, keys, Map, Distinct, is_some, ◌↔◌, ℕ, ◌+◌, ◌≡◌, refl, true, false,
  Bool, none, some, List, [], ◌∷◌, ◌++◌, Text, codes, lookup, is_empty, trim_space, arith, In,
  eq_text, All,
}
use llama_proxy.Config.{YamlConfig, entry}
use llama_proxy.Config.Loading.{LegacyConfig}
use llama_proxy.Balancer.{update}
use llama_proxy.Scheduler.{Slot, Scheduler}
use llama_proxy.Scheduler.Queries.{local_nodes, nodes_of}
use llama_proxy.Scheduler.Tree.{Table, collect_tree, Signal, kill_tree}
use llama_proxy.Scheduler.Tree.Collect.{IsTree, collect_tree-IsTree, IsKilled, kill_tree-IsKilled}
use llama_proxy.Pool.{signature}
use llama_proxy.Reload.{Server, scheduling, reload_config}
use llama_proxy.Scheduler.Order.{IsOrder}
use llama_proxy.Reload.Pool.{syncs, reload_config-forgets}
use llama_proxy.Reload.Notice.{with_gpus, reload_config-unnoticed}
use llama_proxy.Stream.{Round, eof, done, stream_copy, stream_copy_sse, ended}
use llama_proxy.Stream.Account.{
  fresh, IsWrite, IsAccounted, fresh-IsAccounted, body, data_lines, stream_copy-IsAccounted,
  stream_copy_sse-done,
}
use llama_proxy.Store.Filter.{
  RequestFilter, Query, IsAlike, IsBalanced, marks, append_request_filter_sql,
  append_request_filter_sql-IsBalanced,
}
use llama_proxy.Store.Minutes.{
  IsAsked, minutes_ago, Counts, no_counts, minute, get_minute_stats, IsGrouped,
  get_minute_stats-exact,
}
use llama_proxy.Httpx.{copy_request_headers}
use llama_proxy.Httpx.Headers.{IsOmitted, values_of, copy_request_headers-exact}
use llama_proxy.Scheduler.Snapshot.{snapshot, snapshot-total}
use llama_proxy.Events.{new_hub}
use llama_proxy.Events.Safety.{subscribes, unsubscribes, broadcasts, takes, run, IsSafe, run-IsSafe}
use llama_proxy.Examples.{
  in_turn, yaml, three_models, two_backends, empty_pool, system, serving, name_a,
}

-- The process 5 has two children, and 6 has one.
abbrev table : Table
table = (6, 5) ∷ (7, 5) ∷ (8, 6) ∷ (9, 1) ∷ []

collect_tree-IsTree_example :
    (out : List ℕ) × (collect_tree table 5 ≡ some out) × IsTree table 5 out
collect_tree-IsTree_example = collect_tree-IsTree table 5

abbrev alive : ℕ → Bool
alive pid = true

kill_tree-IsKilled_example :
    (signals : List Signal) × (kill_tree alive table 5 4 ≡ some signals) × IsKilled table 5 signals
kill_tree-IsKilled_example = kill_tree-IsKilled alive table 5 4 refl (omega arith)

abbrev legacy : LegacyConfig
legacy = record {
  listen_addr = [];
  data_dir = [];
  retention_days = 14;
  max_request_bytes = 2;
  max_capture_bytes = 2;
  request_timeout = 1;
  poll_backend_metrics = true;
  poll_interval = 1;
  record_paths = [];
  api_key = [];
  ui_allowed_hosts = [];
  log_level = [];
}

-- The server serves the ready model `a`.
abbrev server : Server (List Text)
server = record {
  cfg = legacy;
  yaml_cfg = yaml;
  static_backends = two_backends;
  balancer = some empty_pool;
  scheduler = some serving;
  local_node_sig = name_a;
  client_timeout = 1;
  retention_days = 14;
}

server-signed : server.local_node_sig ≡ signature (local_nodes system serving)
unfolding signature local_nodes nodes_of is_empty entry lookup eq_text trim_space
server-signed = refl

abbrev as_they_are : ℕ → Map Slot → Map Slot
as_they_are n m = m

as_they_are-IsOrder : (n : ℕ) → IsOrder (as_they_are n)
as_they_are-IsOrder n m = Permᴰ.refl m

one_ready : length (local_nodes system serving) ≤ 1
unfolding local_nodes nodes_of is_empty entry lookup eq_text trim_space
one_ready = ground arith

reload_config-forgets_example :
    (syncs in_turn system as_they_are 4 (reload_config in_turn server legacy yaml).0).balancer
    ≡ some (update in_turn empty_pool yaml.backends)
reload_config-forgets_example =
    reload_config-forgets in_turn system as_they_are as_they_are-IsOrder server legacy yaml
      empty_pool serving 4 refl refl one_ready server-signed

abbrev gpu_nine : Text → Text
gpu_nine id = 57 ∷ []

abbrev other_gpus : YamlConfig
other_gpus = record yaml {
  scheduling = some (record three_models { models = with_gpus gpu_nine three_models.models });
}

reload_config-unnoticed_example :
    (¬ In scheduling (reload_config in_turn server legacy other_gpus).1)
    × ((next : Scheduler) × ((reload_config in_turn server legacy other_gpus).0.scheduler
          ≡ some next)
        × (next.cfg ≡ serving.cfg))
reload_config-unnoticed_example =
    reload_config-unnoticed in_turn server legacy other_gpus three_models serving gpu_nine refl refl
      refl

abbrev rounds : List Round
rounds =
    record { bytes = codes "data: x"; read_error = none; taken = 7; write_fails = false }
    ∷ record {
      bytes = codes "data: [DONE]";
      read_error = some eof;
      taken = 12;
      write_fails = false;
    }
    ∷ []

stream_copy-IsAccounted_example :
    IsAccounted 3 (stream_copy (fresh 3) rounds).0
    × IsAccounted 3 (stream_copy_sse (fresh 3) rounds).0
stream_copy-IsAccounted_example =
    stream_copy-IsAccounted 3 (fresh 3) rounds (omega arith, (omega arith, tt))
      (fresh-IsAccounted 3)

rounds-IsWrite : All IsWrite rounds
rounds-IsWrite = (
  record { bounded = omega arith; whole = λ h. refl },
  (record { bounded = omega arith; whole = λ h. refl }, tt),
)

rounds-done : (stream_copy_sse (fresh 3) rounds).1 ≡ some done
unfolding stream_copy_sse ended is_empty
rounds-done = refl

stream_copy_sse-done_example :
    ((stream_copy_sse (fresh 3) rounds).0.sent ≡ (fresh 3).sent ++ body rounds)
    × ((stream_copy_sse (fresh 3) rounds).0.chunks ≡ (fresh 3).chunks + data_lines rounds)
stream_copy_sse-done_example = stream_copy_sse-done (fresh 3) rounds rounds-IsWrite rounds-done

abbrev digits : ℕ → Text
digits t = 48 ∷ []

abbrev filter_by : Text → RequestFilter
filter_by model = record {
  chat_completions_only = true;
  path = [];
  model = model;
  method = [];
  backend = [];
  client_ip = [];
  user_agent = [];
  status_code = 0;
  time_from = some 5;
  time_to = none;
  streaming = none;
  errors_only = true;
  with_tokens = false;
  search = model;
}

filters-IsAlike : IsAlike (filter_by name_a) (filter_by (codes "b"))
unfolding is_empty
filters-IsAlike = record {
  chat = refl;
  path = refl;
  model = refl;
  method = refl;
  backend = refl;
  client = refl;
  agent = refl;
  status = refl;
  from = refl;
  to = refl;
  streaming = refl;
  errors = refl;
  tokens = refl;
  search = refl;
}

abbrev statement : Query
statement = (codes "WHERE 1=1", [])

statement-IsBalanced : IsBalanced statement
unfolding marks
statement-IsBalanced = refl

append_request_filter_sql-IsBalanced_example :
    IsBalanced (append_request_filter_sql digits false (filter_by name_a) statement)
    × ((append_request_filter_sql digits false (filter_by name_a) statement).0
        ≡ (append_request_filter_sql digits false (filter_by (codes "b")) statement).0)
append_request_filter_sql-IsBalanced_example =
    append_request_filter_sql-IsBalanced digits false (filter_by name_a) (filter_by (codes "b"))
      statement filters-IsAlike statement-IsBalanced

-- Two minutes with requests, of the last three.
abbrev counted : ℕ → Counts
counted n = record no_counts { total_requests = n }

abbrev answered : List (Text × Counts)
answered = (1441 ∷ [], counted 7) ∷ (1443 ∷ [], counted 2) ∷ []

abbrev clock_text : ℕ → Text
clock_text t = (t / minute) ∷ []

answered-IsGrouped : IsGrouped answered
unfolding keys
answered-IsGrouped = ground arith

three-IsAsked : IsAsked 3 3
three-IsAsked = record {
  not_given = λ e. absurd (omega (arith, e));
  in_range = λ a b. refl;
  too_many = λ h. absurd (omega (arith, h));
}

get_minute_stats-exact_example :
    (out : List (Text × Counts)) × (get_minute_stats clock_text
        (λ f. some answered)
        86580000000000
        3
        (filter_by name_a)
      ≡ some out)
    × (length out ≡ 3)
    × ((i : ℕ)
        → i < 3
        → let key = clock_text (minutes_ago 86580000000000 i) in
          In (key, or_else no_counts (lookup key answered)) out)
get_minute_stats-exact_example =
    get_minute_stats-exact clock_text (λ f. some answered) 86580000000000 3 3 (filter_by name_a)
      answered (omega arith) three-IsAsked refl answered-IsGrouped

run-IsSafe_example : IsSafe (
    run new_hub
      (subscribes ∷ broadcasts (some (120 ∷ [])) ∷ takes 0 ∷ unsubscribes 0 ∷ unsubscribes 0 ∷ []))
run-IsSafe_example =
    run-IsSafe
      (subscribes ∷ broadcasts (some (120 ∷ [])) ∷ takes 0 ∷ unsubscribes 0 ∷ unsubscribes 0 ∷ [])

abbrev same_text : Text → Text
same_text t = t

abbrev no_fold : Text → Text → Bool
no_fold a b = eq_text a b

abbrev request_headers : Map (List Text)
request_headers =
    (codes "Accept", codes "a" ∷ codes "b" ∷ []) ∷ (codes "te", codes "gzip" ∷ []) ∷ []

request_headers-Distinct : Distinct (keys request_headers)
unfolding keys
request_headers-Distinct = ground arith

copy_request_headers-exact_example :
    let out =
      values_of (codes "Accept") (copy_request_headers same_text no_fold [] request_headers) in
    (IsOmitted same_text no_fold (codes "Accept") → out ≡ [])
    × ((¬ IsOmitted same_text no_fold (codes "Accept"))
        → out ≡ values_of (codes "Accept") request_headers)
copy_request_headers-exact_example =
    copy_request_headers-exact same_text no_fold request_headers (codes "Accept")
      request_headers-Distinct

snapshot-total_example :
    (is_some (snapshot system serving) ≡ true)
    ↔ ((id : Text) → In id (keys serving.cfg.models) → is_some (entry serving.cfg id) ≡ true)
snapshot-total_example = snapshot-total system serving
