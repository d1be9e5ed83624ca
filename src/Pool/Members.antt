-- ===== src/Pool/Members.antt =====
-- Which backends the pool holds after it was rebuilt (pool.go: `syncLocalBackendNodes`).
use llama_proxy.Prelude.{
  In-append, append-In, ◌≡◌, refl, ap, subst, ◌⊎◌, inl, inr, true, false, none, some, List, [], ◌∷◌,
  ◌++◌, arith, Text, In, lookup, lookup-insert, eq_text, eq_text_refl, Bool-cases, is_some,
  is_empty, if◌then◌else◌, some-injective,
}
use llama_proxy.Config.{BackendConfig}
use llama_proxy.Balancer.{
  Strategies, Balancer, Tables, update, add_backend, add_backends, no_tables,
}
use llama_proxy.Scheduler.{Env, Scheduler}
use llama_proxy.Scheduler.Queries.{LocalNode, local_nodes, IsPoolNode, local_nodes-exact}
use llama_proxy.Pool.{local_backend, local_backends, signature, sync_local_backend_nodes}

-- One round of the loop enters the backend under its name.
lookup-add_backend :
    (t : Tables) (c : BackendConfig) (name : Text)
    → lookup name (add_backend t c).backends
      ≡ (if eq_text c.name name then some c else lookup name t.backends)
unfolding add_backend
lookup-add_backend t c name = lookup-insert c.name name c t.backends

-- A backend of the table was there before or is of the list.
add_backends-lookup :
    (t : Tables) (bs : List BackendConfig) (name : Text) (b : BackendConfig)
    → lookup name (add_backends t bs).backends ≡ some b
    → (lookup name t.backends ≡ some b) ⊎ In b bs
unfolding add_backends
add_backends-lookup t [] name b h = inl h
add_backends-lookup t (c ∷ bs) name b h = elim (add_backends-lookup (add_backend t c) bs name b h) [
  | inl early ↦ elim (Bool-cases (eq_text c.name name)) [
    | inl e ↦ inr (inl (some-injective c b (rw (lookup-add_backend t c name, e) at early)))
    | inr e ↦ inl (rw (lookup-add_backend t c name, e) at early)
  ]
  | inr later ↦ inr (inr later)
]

-- No backend of the table or of the list is lost.
add_backends-keeps :
    (t : Tables) (bs : List BackendConfig) (name : Text)
    → is_some (lookup name t.backends) ≡ true
    → is_some (lookup name (add_backends t bs).backends) ≡ true
unfolding add_backends
add_backends-keeps t [] name h = h
add_backends-keeps t (c ∷ bs) name h =
    add_backends-keeps (add_backend t c) bs name (ground (arith, lookup-add_backend t c name, h))

add_backends-enters :
    (t : Tables) (bs : List BackendConfig) (b : BackendConfig)
    → In b bs
    → is_some (lookup b.name (add_backends t bs).backends) ≡ true
unfolding add_backends
add_backends-enters t [] b m = absurd m
add_backends-enters t (c ∷ bs) b (inl e) = add_backends-keeps (add_backend t c) bs b.name (
    subst (λ x. is_some (lookup x.name (add_backend t c).backends) ≡ true) e
      (ground (arith, lookup-add_backend t c c.name, eq_text_refl c.name)))
add_backends-enters t (c ∷ bs) b (inr m) = add_backends-enters (add_backend t c) bs b m

-- The node that a local backend stands for.
local_backends-In :
    (nodes : List LocalNode) (b : BackendConfig)
    → In b (local_backends nodes)
    → (n : LocalNode) × In n nodes × (is_empty n.base_url ≡ false) × (local_backend n ≡ b)
unfolding local_backends
local_backends-In [] b m = absurd m
local_backends-In (node ∷ nodes) b m = elim (Bool-cases (is_empty node.base_url)) [
  | inl e ↦
      let (n, k, u, s) = local_backends-In nodes b (rw (e, local_backends) at m) in (n, inr k, u, s)
  | inr e ↦ elim (rw (e, local_backends) at m) [
    | inl same ↦ (node, inl refl, e, same)
    | inr later ↦ let (n, k, u, s) = local_backends-In nodes b later in (n, inr k, u, s)
  ]
]

In-local_backends :
    (nodes : List LocalNode) (n : LocalNode)
    → In n nodes
    → is_empty n.base_url ≡ false
    → In (local_backend n) (local_backends nodes)
unfolding local_backends
In-local_backends [] n m u = absurd m
In-local_backends (node ∷ nodes) n (inl e) u =
    rw (ap (λ x. is_empty x.base_url) e, u) (inl (ap (λ x. local_backend x) e))
In-local_backends (node ∷ nodes) n (inr m) u = elim (Bool-cases (is_empty node.base_url)) [
  | inl e ↦ rw e (In-local_backends nodes n m u)
  | inr e ↦ rw e (inr (In-local_backends nodes n m u))
]

-- The pool `bb` serves the configured backends and the ready local models.
pub record IsMerged {B : Type 0} (static_backends : List BackendConfig) (env : Env) (s : Scheduler)
    (bb : Balancer B) : Type 0 where
  pub only :
      (name : Text) (b : BackendConfig)
      → lookup name bb.backends ≡ some b
      → In b static_backends
        ⊎ ((n : LocalNode) × (is_empty s.coding_model ≡ true)
            × IsPoolNode env s.cfg s.procs n
            × (local_backend n ≡ b))
  pub static :
      (b : BackendConfig) → In b static_backends → is_some (lookup b.name bb.backends) ≡ true
  pub local :
      (n : LocalNode)
      → is_empty s.coding_model ≡ true
      → IsPoolNode env s.cfg s.procs n
      → is_empty n.base_url ≡ false
      → is_some (lookup (local_backend n).name bb.backends) ≡ true

module _ {B : Type 0} (S : Strategies B) where
  -- If the signature of the local nodes is not the stored one, the rebuilt pool holds, under each of
  -- its names, a configured backend or the node of a ready background model without no_pool, and in
  -- coding mode no such node; it has the name of every configured backend, and outside coding mode of
  -- every such node with an address.
  pub sync_local_backend_nodes-IsMerged :
      (env : Env) (s : Scheduler) (static_backends : List BackendConfig) (bb : Balancer B)
      (sig : Text)
      → eq_text (signature (local_nodes env s)) sig ≡ false
      → IsMerged static_backends env s
          (sync_local_backend_nodes S env s static_backends (bb, sig)).0
  unfolding sync_local_backend_nodes update lookup
  sync_local_backend_nodes-IsMerged env s static_backends bb sig changed =
      let nodes = local_nodes env s in
      let merged = static_backends ++ local_backends nodes in
      rw (changed, sync_local_backend_nodes)
        (record {
          only = λ name b h. elim (add_backends-lookup no_tables merged name b h) [
            | inl bad ↦ absurd (let no : none ≡ some b = bad in cc)
            | inr m ↦ elim (In-append b static_backends (local_backends nodes) m) [
              | inl st ↦ inl st
              | inr lo ↦
                  let (n, k, u, same) = local_backends-In nodes b lo in
                  let (idle, node) = (local_nodes-exact env s n).0 k in inr (n, idle, node, same)
            ]
          ];
          static = λ b m.
              add_backends-enters no_tables merged b
                (append-In b static_backends (local_backends nodes) (inl m));
          local = λ n idle node u. add_backends-enters no_tables merged (local_backend n) (
              append-In (local_backend n) static_backends (local_backends nodes)
                (inr (In-local_backends nodes n ((local_nodes-exact env s n).1 (idle, node)) u)));
        })
