-- ===== src/Scheduler/Order.antt =====
-- The order in which `LocalNodes` ranges over the map of slots (internal/scheduler/scheduler.go).
use mathlib.Core.List.{Permᴰ}
use llama_proxy.Prelude.{
  ◌≡◌, refl, sym, ap, ◌∙◌, ◌≤◌, arith, subst, Bool-cases, Option-cases, inl, inr, Option, none,
  some, not, ◌||◌, List, ◌∷◌, Text, Map, length, is_empty, if◌then◌else◌,
}
use llama_proxy.Config.{SchedulingConfig, entry, is_background}
use llama_proxy.Scheduler.{Env, Slot, Scheduler}
use llama_proxy.Scheduler.Queries.{LocalNode, node_of, nodes_of, local_nodes}

-- A Go map is visited in any order, each entry once.
abbrev pub IsOrder : (Map Slot → Map Slot) → Type 0
IsOrder order = (m : Map Slot) → Permᴰ m (order m)

-- The node of a slot, if it is ready and of the pool.
abbrev node_at : Env → SchedulingConfig → Text → Slot → Option LocalNode
node_at env cfg id sl = if not sl.ready_ok then none else elim (entry cfg id) [
  | none ↦ none
  | some e ↦ if not (is_background e) || e.no_pool then none else some (node_of env id e)
]

abbrev put : Option LocalNode → List LocalNode → List LocalNode
put none rest = rest
put (some n) rest = n ∷ rest

nodes_of-put :
    (env : Env) (cfg : SchedulingConfig) (id : Text) (sl : Slot) (m : Map Slot)
    → nodes_of env cfg ((id, sl) ∷ m) ≡ put (node_at env cfg id sl) (nodes_of env cfg m)
unfolding nodes_of
nodes_of-put env cfg id sl m = elim (Bool-cases sl.ready_ok) [
  | inr idle ↦ rw idle refl
  | inl ready ↦ elim (Option-cases (entry cfg id)) [
    | inl missing ↦ rw (ready, missing) refl
    | inr (e, found) ↦ elim (Bool-cases (not (is_background e) || e.no_pool)) [
      | inl out ↦ rw (ready, found, out) refl
      | inr pooled ↦ rw (ready, found, pooled) refl
    ]
  ]
]

put_same :
    (o : Option LocalNode) (a b : List LocalNode)
    → (length a ≤ 1 → a ≡ b)
    → length (put o a) ≤ 1
    → put o a ≡ put o b
put_same none a b h few = h few
put_same (some n) a b h few = ap (λ l. n ∷ l) (h (omega (arith, few)))

put_twice :
    (o p : Option LocalNode) (a : List LocalNode)
    → length (put o (put p a)) ≤ 1
    → put o (put p a) ≡ put p (put o a)
put_twice none p a few = refl
put_twice (some n) none a few = refl
put_twice (some n) (some k) a few = absurd (omega (arith, few))

-- At most one node: then the order does not matter.
nodes_of-order :
    (env : Env) (cfg : SchedulingConfig) (m m' : Map Slot)
    → Permᴰ m m'
    → length (nodes_of env cfg m) ≤ 1
    → nodes_of env cfg m ≡ nodes_of env cfg m'
nodes_of-order env cfg _ _ Permᴰ.nil few = refl
nodes_of-order env cfg _ _ (Permᴰ.cons {a} {b} {l₁} {l₂} e p) few =
    let here = nodes_of-put env cfg a.0 a.1 l₁ in
    here
    ∙ put_same (node_at env cfg a.0 a.1) (nodes_of env cfg l₁) (nodes_of env cfg l₂)
        (nodes_of-order env cfg l₁ l₂ p) (subst (λ l. length l ≤ 1) here few)
    ∙ sym (nodes_of-put env cfg a.0 a.1 l₂)
    ∙ ap (λ x. nodes_of env cfg (x ∷ l₂)) e
nodes_of-order env cfg _ _ (Permᴰ.swap {a} {b} {a'} {b'} {l} e f) few =
    let here = two a b l in
    here
    ∙ put_twice (node_at env cfg a.0 a.1) (node_at env cfg b.0 b.1) (nodes_of env cfg l)
        (subst (λ l. length l ≤ 1) here few)
    ∙ sym (two b a l)
    ∙ ap (λ x. nodes_of env cfg (x ∷ a ∷ l)) f
    ∙ ap (λ x. nodes_of env cfg (a' ∷ x ∷ l)) e
  where
    two :
        (x y : Text × Slot) (m : Map Slot)
        → nodes_of env cfg (x ∷ y ∷ m)
          ≡ put (node_at env cfg x.0 x.1) (put (node_at env cfg y.0 y.1) (nodes_of env cfg m))
    two x y m =
        nodes_of-put env cfg x.0 x.1 (y ∷ m)
        ∙ ap (put (node_at env cfg x.0 x.1)) (nodes_of-put env cfg y.0 y.1 m)
nodes_of-order env cfg _ _ (Permᴰ.trans {l₁} {l₂} {l₃} p q) few =
    let same = nodes_of-order env cfg l₁ l₂ p few in
    same ∙ nodes_of-order env cfg l₂ l₃ q (subst (λ l. length l ≤ 1) same few)

pub local_nodes-order :
    (env : Env) (s : Scheduler) (order : Map Slot → Map Slot)
    → IsOrder order
    → length (local_nodes env s) ≤ 1
    → local_nodes env (record s { procs = order s.procs }) ≡ local_nodes env s
unfolding local_nodes
local_nodes-order env s order fair few = elim (Bool-cases (is_empty s.coding_model)) [
  | inr coding ↦ rw coding refl
  | inl free ↦
      let count : length (nodes_of env s.cfg s.procs) ≤ 1 = ground (arith, few, free) in
      rw free (sym (nodes_of-order env s.cfg s.procs (order s.procs) (fair s.procs) count))
]
