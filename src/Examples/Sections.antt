-- ===== src/Examples/Sections.antt =====
-- Failures, signals, channels, local nodes and the wait for gpu memory.
use llama_proxy.Prelude.{
  pos, suc, ◌+◌, ◌*◌, ◌^◌, ◌≤◌, ◌≡◌, ◌↔◌, refl, true, false, some, [], ◌∷◌, In, All, lookup,
  is_empty, eq_text, trim_space, trim_left_if, trim_right_if, is_space,
}
use llama_proxy.Config.{entry}
use llama_proxy.Scheduler.{
  Scheduler, new, mark_slot_ready, record_startup_fail, cap_backoff, max_startup_backoff,
}
use llama_proxy.Scheduler.Process.{shutdown}
use llama_proxy.Scheduler.Arbitration.{launch_slot}
use llama_proxy.Scheduler.Backoff.{failures, record_startup_fail_later}
use llama_proxy.Scheduler.Queries.{LocalNode, local_nodes, nodes_of, IsPoolNode, local_nodes-exact}
use llama_proxy.Scheduler.Signals.{shutdown-IsSilent}
use llama_proxy.Scheduler.Channels.{IsChannelSafe}
use llama_proxy.Scheduler.Steps.{begins, goes_on, readied, launches, IsReachable-IsChannelSafe}
use llama_proxy.Pool.{signature, sync_local_backend_nodes}
use llama_proxy.Pool.Members.{IsMerged, sync_local_backend_nodes-IsMerged}
use llama_proxy.Examples.{
  three_models, two_backends, empty_pool, in_turn, name_a, name_c, system, idle, busy, serving,
}

abbrev failed_once : Scheduler
failed_once = record idle { fail_count = (name_a, 1) ∷ [] }

failed_once-failures : failures failed_once name_a ≡ suc 0
unfolding lookup eq_text
failed_once-failures = refl

record_startup_fail_later_example :
    let until = system.now + cap_backoff (failed_once.fail_backoff * 2 ^ 0) in
    (failures (record_startup_fail system failed_once name_a).0 name_a ≡ suc (suc 0))
    × ((record_startup_fail system failed_once name_a).1 ≡ some until)
    × (lookup name_a (record_startup_fail system failed_once name_a).0.next_restart_at ≡ some until)
    × (until ≤ system.now + max_startup_backoff)
record_startup_fail_later_example =
    record_startup_fail_later system failed_once name_a 0 failed_once-failures

shutdown-IsSilent_example : All (λ targets. targets ≡ []) (shutdown system busy)
shutdown-IsSilent_example = shutdown-IsSilent system busy (refl, tt)

abbrev launched_c : Scheduler
launched_c = launch_slot system (new three_models (pos 0) three_models.switch) name_c

IsReachable-IsChannelSafe_example :
    IsChannelSafe
      (mark_slot_ready system launched_c name_c).procs
      (mark_slot_ready system launched_c name_c).next_ch
      (mark_slot_ready system launched_c name_c).closed_chs
IsReachable-IsChannelSafe_example =
    IsReachable-IsChannelSafe three_models (pos 0) three_models.switch
      (mark_slot_ready system launched_c name_c)
      (goes_on (goes_on begins (launches system name_c)) (readied system name_c))

abbrev node_a : LocalNode
node_a = record { base_url = []; model_id = name_a; weight = 1; tags = []; api_key = [] }

local_nodes-exact_example :
    In node_a (local_nodes system serving)
    ↔ ((is_empty serving.coding_model ≡ true) × IsPoolNode system serving.cfg serving.procs node_a)
local_nodes-exact_example = local_nodes-exact system serving node_a

serving-changed : eq_text (signature (local_nodes system serving)) [] ≡ false
unfolding signature local_nodes nodes_of entry lookup eq_text is_empty trim_space trim_left_if
    trim_right_if is_space
serving-changed = refl

sync_local_backend_nodes-IsMerged_example :
    IsMerged two_backends system serving
      (sync_local_backend_nodes in_turn system serving two_backends (empty_pool, [])).0
sync_local_backend_nodes-IsMerged_example =
    sync_local_backend_nodes-IsMerged in_turn system serving two_backends empty_pool []
      serving-changed
