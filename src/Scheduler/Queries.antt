-- ===== src/Scheduler/Queries.antt =====
-- internal/scheduler/scheduler.go: what the proxy asks of the scheduler (`BaseURLFor`, `APIKeyFor`,
-- `LocalNodes`).
use llama_proxy.Prelude.{
  true, false, not, ◌||◌, none, some, List, [], ◌∷◌, ◌++◌, Text, codes, Map, lookup, ℕ, is_empty,
  if◌then◌else◌, ◌==◌, trim_right_if, ◌≡◌, ◌↔◌, refl, ap, subst, ◌⊎◌, inl, inr, In, arith,
  Bool-cases, Option-cases,
}
use llama_proxy.Config.{ProcessConfig, SchedulingConfig, entry, is_background}
use llama_proxy.Scheduler.{Env, Slot, Scheduler}

unfoldable pub api_base_from_readiness : Env → Text → Text
api_base_from_readiness env readiness_url =
    elim (env.url_origin (trim_right_if (λ c. c == b'/') readiness_url)) [
      | none ↦ []
      | some (scheme, host) ↦
          if is_empty scheme || is_empty host
          then []
          else scheme ++ codes "://" ++ host ++ codes "/v1"
    ]

unfoldable pub base_url_for : Env → Scheduler → Text → Text
unfolding api_base_from_readiness
base_url_for env s id = elim (lookup id s.procs) [
  | none ↦ []
  | some sl ↦ if not sl.ready_ok then [] else elim (entry s.cfg id) [
    | none ↦ []
    | some e ↦ api_base_from_readiness env e.readiness_url
  ]
]

unfoldable pub api_key_for : Scheduler → Text → Text
api_key_for s id = elim (lookup id s.procs) [
  | none ↦ []
  | some sl ↦
      if not sl.ready_ok then [] else elim (entry s.cfg id) [ none ↦ [] | some e ↦ e.api_key ]
]

pub record LocalNode : Type 0 where
  pub base_url : Text
  pub model_id : Text
  pub weight : ℕ
  pub tags : List Text
  pub api_key : Text

abbrev pub node_of : Env → Text → ProcessConfig → LocalNode
node_of env id e = record {
  base_url = api_base_from_readiness env e.readiness_url;
  model_id = id;
  weight = e.weight;
  tags = e.tags;
  api_key = e.api_key;
}

-- The loop of `LocalNodes`.
unfoldable pub nodes_of : Env → SchedulingConfig → Map Slot → List LocalNode
nodes_of env cfg [] = []
nodes_of env cfg ((id, sl) ∷ m) =
    let rest = nodes_of env cfg m in
    if not sl.ready_ok then rest else elim (entry cfg id) [
      | none ↦ rest
      | some e ↦ if not (is_background e) || e.no_pool then rest else node_of env id e ∷ rest
    ]

unfoldable pub local_nodes : Env → Scheduler → List LocalNode
unfolding nodes_of
local_nodes env s = if is_empty s.coding_model then nodes_of env s.cfg s.procs else []

-- A ready slot of a configured background model that may join the pool, and its node.
pub record IsPoolNode (env : Env) (cfg : SchedulingConfig) (m : Map Slot) (n : LocalNode)
    : Type 0 where
  pub id : Text
  pub slot : Slot
  pub config : ProcessConfig
  pub listed : In (id, slot) m
  pub ready : slot.ready_ok ≡ true
  pub configured : entry cfg id ≡ some config
  pub background : is_background config ≡ true
  pub pooled : config.no_pool ≡ false
  pub described : node_of env id config ≡ n

IsPoolNode-later :
    (env : Env) (cfg : SchedulingConfig) (id : Text) (sl : Slot) (m : Map Slot) (n : LocalNode)
    → IsPoolNode env cfg m n
    → IsPoolNode env cfg ((id, sl) ∷ m) n
IsPoolNode-later env cfg id sl m n p = record {
  id = p.id;
  slot = p.slot;
  config = p.config;
  listed = inr p.listed;
  ready = p.ready;
  configured = p.configured;
  background = p.background;
  pooled = p.pooled;
  described = p.described;
}

nodes_of-split :
    (env : Env) (cfg : SchedulingConfig) (id : Text) (sl : Slot) (m : Map Slot) (n : LocalNode)
    → In n (nodes_of env cfg ((id, sl) ∷ m))
    → In n (nodes_of env cfg m) ⊎ IsPoolNode env cfg ((id, sl) ∷ m) n
unfolding nodes_of
nodes_of-split env cfg id sl m n h = elim (Bool-cases sl.ready_ok) [
  | inr idle ↦ inl (rw (idle, nodes_of) at h)
  | inl ready ↦ elim (Option-cases (entry cfg id)) [
    | inl missing ↦ inl (rw (ready, missing, nodes_of) at h)
    | inr (e, found) ↦ elim (Bool-cases (not (is_background e) || e.no_pool)) [
      | inl out ↦ inl (rw (ready, found, out, nodes_of) at h)
      | inr pooled ↦ elim (rw (ready, found, pooled, nodes_of) at h) [
        | inl same ↦ inr (record {
          id = id;
          slot = sl;
          config = e;
          listed = inl refl;
          ready = ready;
          configured = found;
          background = ground arith;
          pooled = ground arith;
          described = same;
        })
        | inr later ↦ inl later
      ]
    ]
  ]
]

nodes_of-IsPoolNode :
    (env : Env) (cfg : SchedulingConfig) (m : Map Slot) (n : LocalNode)
    → In n (nodes_of env cfg m)
    → IsPoolNode env cfg m n
unfolding nodes_of
nodes_of-IsPoolNode env cfg [] n here = absurd here
nodes_of-IsPoolNode env cfg ((id, sl) ∷ m) n h = elim (nodes_of-split env cfg id sl m n h) [
  | inl later ↦ IsPoolNode-later env cfg id sl m n (nodes_of-IsPoolNode env cfg m n later)
  | inr at ↦ at
]

IsPoolNode-nodes_of :
    (env : Env) (cfg : SchedulingConfig) (m : Map Slot) (id : Text) (sl : Slot) (e : ProcessConfig)
    → In (id, sl) m
    → sl.ready_ok ≡ true
    → entry cfg id ≡ some e
    → is_background e ≡ true
    → e.no_pool ≡ false
    → In (node_of env id e) (nodes_of env cfg m)
unfolding nodes_of
IsPoolNode-nodes_of env cfg [] id sl e here r f b p = absurd here
IsPoolNode-nodes_of env cfg ((k, d) ∷ m) id sl e (inl same) r f b p =
    ground (arith, ap (λ p. p.0) same, ap (λ p. p.1) same)
IsPoolNode-nodes_of env cfg ((k, d) ∷ m) id sl e (inr later) r f b p =
    let rest = IsPoolNode-nodes_of env cfg m id sl e later r f b p in
    elim (Bool-cases d.ready_ok) [
      | inr idle ↦ rw (idle, nodes_of) rest
      | inl ready ↦ elim (Option-cases (entry cfg k)) [
        | inl missing ↦ rw (ready, missing, nodes_of) rest
        | inr (g, found) ↦ elim (Bool-cases (not (is_background g) || g.no_pool)) [
          | inl out ↦ rw (ready, found, out, nodes_of) rest
          | inr pooled ↦ rw (ready, found, pooled, nodes_of) (inr rest)
        ]
      ]
    ]

-- In coding mode `LocalNodes` is empty; otherwise it lists exactly the nodes of the ready slots of
-- configured background models without no_pool, each with the weight, tags and key of its entry.
pub local_nodes-exact :
    (env : Env) (s : Scheduler) (n : LocalNode)
    → In n (local_nodes env s) ↔ ((is_empty s.coding_model ≡ true) × IsPoolNode env s.cfg s.procs n)
unfolding local_nodes
local_nodes-exact env s n = (
  λ h. elim (Bool-cases (is_empty s.coding_model)) [
    | inl e ↦ (e, nodes_of-IsPoolNode env s.cfg s.procs n (rw (e, local_nodes) at h))
    | inr e ↦ absurd (rw (e, local_nodes) at h)
  ],
  λ p.
      rw (p.0, local_nodes)
        (subst (λ x. In x (nodes_of env s.cfg s.procs)) p.1.described
          (IsPoolNode-nodes_of env s.cfg s.procs p.1.id p.1.slot p.1.config p.1.listed p.1.ready
            p.1.configured p.1.background p.1.pooled)),
)
