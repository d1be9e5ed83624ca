-- ===== src/Scheduler/Tree/Collect.antt =====
-- `collectTree` gives exactly the processes below its root, each once, and `killTree` signals them
-- (internal/scheduler/procresolve.go).
use llama_proxy.Prelude.{
  ℕ, zero, suc, ◌<◌, ◌≡◌, ◌≢◌, ◌↔◌, refl, sym, ap, subst, inl, inr, Bool, true, not, some, List, [],
  ◌∷◌, ◌++◌, arith, In, Distinct, length, keep_if, In-keep_if, keep_if-In, ◌==◌, Bool-cases, map,
}
use llama_proxy.Scheduler.Tree.{
  Table, process_children, Walk, visit, collect, collect_tree, Signal, process, kill_tree,
}
use llama_proxy.Scheduler.Tree.Visit.{
  Below, top, child, IsClosed, unseen_bound, IsWalk, Pending, rounds, IsVisited, visit-IsVisited,
}

module _ (table : Table) (root : ℕ) where
  -- What a finished walk promises.
  pub record IsTree (out : List ℕ) : Type 0 where
    pub once : Distinct out
    pub exact : (p : ℕ) → In p out ↔ Below table root p

  closed-IsTree :
      (w : Walk) → IsWalk table root w → w.queue ≡ [] → Pending table root (λ p. ⊥) w → IsTree w.out
  closed-IsTree w k done pending = record { once = k.distinct; exact = λ p. (k.below p, reach p) }
    where
      closed : (p : ℕ) → In p w.out → IsClosed table w.out p
      closed p h = elim (pending p h) [
        | inl bad ↦ absurd bad
        | inr rest ↦ elim rest [ inl waits ↦ absurd (subst (In p) done waits) | inr there ↦ there ]
      ]

      reach : (p : ℕ) → Below table root p → In p w.out
      reach p top = k.rooted
      reach p (child {p = r} b m) = closed r (reach r b) p m

  popped-IsVisited :
      (w : Walk) (cur : ℕ) (rest : List ℕ)
      → IsWalk table root w
      → Pending table root (λ p. ⊥) w
      → w.queue ≡ cur ∷ rest
      → IsVisited table root
          (λ p. cur ≡ p)
          (record w { queue = rest })
          (visit (record w { queue = rest }) (process_children table cur))
          (process_children table cur)
  popped-IsVisited w cur rest k pending e =
      visit-IsVisited table root (λ p. cur ≡ p) (record w { queue = rest }) cur
        (process_children table cur) (λ c h. h)
        (record {
          same = k.same;
          distinct = k.distinct;
          rooted = k.rooted;
          below = k.below;
          queued = λ p h. k.queued p (subst (In p) (sym e) (inr h));
        })
        (k.queued cur (subst (In cur) (sym e) (inl refl)))
        (λ p h. elim (pending p h) [
          | inl bad ↦ absurd bad
          | inr other ↦ elim other [
            | inl waits ↦ elim (subst (In p) e waits) [
              | inl same ↦ inl same
              | inr later ↦ inr (inl later)
            ]
            | inr closed ↦ inr (inr closed)
          ]
        ])

  collect-IsTree :
      (fuel : ℕ) (w : Walk)
      → IsWalk table root w
      → Pending table root (λ p. ⊥) w
      → rounds table root w < fuel
      → (out : List ℕ) × (collect fuel table w ≡ some out) × IsTree out
  unfolding collect
  collect-IsTree zero w k pending enough = absurd (omega (arith, enough))
  collect-IsTree (suc fuel) w k pending enough = at_queue (collect-IsTree fuel) w.queue refl
    where
      at_queue :
          ((w : Walk)
            → IsWalk table root w
            → Pending table root (λ p. ⊥) w
            → rounds table root w < fuel
            → (out : List ℕ) × (collect fuel table w ≡ some out) × IsTree out)
          → (queue : List ℕ) → w.queue ≡ queue
          → (out : List ℕ) × (collect (suc fuel) table w ≡ some out) × IsTree out
      at_queue again [] e = (w.out, rw e refl, closed-IsTree w k e pending)
      at_queue again (cur ∷ rest) e =
          let v = popped-IsVisited w cur rest k pending e in
          let (out, ends, tree) =
            again (visit (record w { queue = rest }) (process_children table cur)) v.walk
              (λ p h. elim (v.pending p h) [
                | inl same ↦ inr (
                    inr (λ q m.
                      v.finds q (subst (λ x. In q (process_children table x)) (sym same) m)))
                | inr other ↦ inr other
              ])
              (omega (arith, v.bounded, enough, ap length e)) in
          (out, rw e ends, tree)

-- `collectTree` ends, and gives every process of the table that is below its root, the root included,
-- once, and no other.
pub collect_tree-IsTree :
    (table : Table) (root : ℕ)
    → (out : List ℕ) × (collect_tree table root ≡ some out) × IsTree table root out
unfolding collect_tree
collect_tree-IsTree table root =
    collect-IsTree table root (suc (suc (length table)))
      (record { out = root ∷ []; queue = root ∷ []; seen = root ∷ [] })
      (record {
        same = refl;
        distinct = ((λ bad. bad), tt);
        rooted = inl refl;
        below = λ p h. elim h [ inl e ↦ subst (Below table root) e top | inr bad ↦ absurd bad ];
        queued = λ p h. h;
      })
      (λ p h. inr (inl h)) (omega (arith, unseen_bound (root ∷ []) table))

-- What `killTree` sends when the target does not lead a process group.
pub record IsKilled (table : Table) (pid : ℕ) (signals : List Signal) : Type 0 where
  pub others : List ℕ
  pub order : signals ≡ map process others ++ process pid ∷ []
  pub once : Distinct others
  pub exact : (p : ℕ) → In p others ↔ (Below table pid p × (p ≢ pid))

keep_if-Distinct : (p : ℕ → Bool) (xs : List ℕ) → Distinct xs → Distinct (keep_if p xs)
unfolding keep_if
keep_if-Distinct p [] d = tt
keep_if-Distinct p (x ∷ xs) (new, d) = elim (Bool-cases (p x)) [
  | inl e ↦ rw e ((λ h. new (In-keep_if p x xs h).0), keep_if-Distinct p xs d)
  | inr o ↦ rw o (keep_if-Distinct p xs d)
]

-- A live process that does not lead its group is signalled last, and each other process below it
-- once before it; nothing else is signalled.
pub kill_tree-IsKilled :
    (alive : ℕ → Bool) (table : Table) (pid pgid : ℕ)
    → alive pid ≡ true
    → pgid ≢ pid
    → (signals : List Signal) × (kill_tree alive table pid pgid ≡ some signals)
      × IsKilled table pid signals
unfolding kill_tree
kill_tree-IsKilled alive table pid pgid lives apart =
    let (out, ends, tree) = collect_tree-IsTree table pid in
    let others : List ℕ = keep_if (λ p. not (p == pid)) out in
    (
      map process others ++ process pid ∷ [],
      ground (arith, lives, apart, ends),
      record {
        others = others;
        order = refl;
        once = keep_if-Distinct (λ p. not (p == pid)) out tree.once;
        exact = λ p. (
          λ h.
              let (there, other) = In-keep_if (λ p. not (p == pid)) p out h in
              ((tree.exact p).0 there, ground (arith, other)),
          λ (below, other).
              keep_if-In (λ p. not (p == pid)) p out ((tree.exact p).1 below)
                (ground (arith, other)),
        );
      },
    )
