-- ===== src/Pool.antt =====
-- pool.go: `syncLocalBackendNodes`, which rebuilds the balancer from the configured backends and the
-- ready local models, and `schedulerForwardBCFor`.
pub mod Members
use llama_proxy.Prelude.{
  Bool, true, false, Option, none, some, List, [], ◌∷◌, ◌++◌, Text, codes, eq_text, is_empty,
  if◌then◌else◌,
}
use llama_proxy.Config.{BackendConfig}
use llama_proxy.Balancer.{Strategies, Balancer, update}
use llama_proxy.Scheduler.{Env, Scheduler}
use llama_proxy.Scheduler.Queries.{LocalNode, local_nodes, api_key_for}

abbrev pub local_node_name_prefix : Text
local_node_name_prefix = codes "local-"

unfoldable pub scheduler_forward_bc_for : Scheduler → Text → BackendConfig
scheduler_forward_bc_for s model_id = record {
  name = local_node_name_prefix ++ model_id;
  url = [];
  weight = 0;
  model = [];
  api_key = api_key_for s model_id;
  tags = [];
}

-- The backend that stands for a local node.
abbrev pub local_backend : LocalNode → BackendConfig
local_backend node = record {
  name = local_node_name_prefix ++ node.model_id;
  url = node.base_url;
  weight = node.weight;
  model = node.model_id;
  api_key = node.api_key;
  tags = node.tags;
}

unfoldable pub local_backends : List LocalNode → List BackendConfig
local_backends [] = []
local_backends (node ∷ nodes) =
    let rest = local_backends nodes in
    if is_empty node.base_url then rest else local_backend node ∷ rest

-- strings.Join of the model IDs, with commas.
unfoldable pub signature : List LocalNode → Text
signature [] = []
signature (node ∷ nodes) = elim nodes [
  | [] ↦ node.model_id
  | _ ∷ _ ↦ node.model_id ++ codes "," ++ signature nodes
]

-- The balancer, and the signature `localNodeSig` of the nodes that it was last built from.
unfoldable pub sync_local_backend_nodes :
    {B : Type 0}
    → Strategies B
    → Env
    → Scheduler
    → List BackendConfig
    → Balancer B × Text
    → Balancer B × Text
unfolding signature local_backends
sync_local_backend_nodes S env s static_backends (bb, sig) =
    let nodes = local_nodes env s in
    if eq_text (signature nodes) sig
    then (bb, sig)
    else (update S bb (static_backends ++ local_backends nodes), signature nodes)
