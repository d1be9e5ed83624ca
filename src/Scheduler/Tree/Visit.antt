-- ===== src/Scheduler/Tree/Visit.antt =====
-- What the loops of `collectTree` keep (internal/scheduler/procresolve.go).
use llama_proxy.Prelude.{
  ℕ, ◌+◌, ◌≤◌, ◌<◌, ◌≡◌, refl, sym, ap, subst, ◌∙◌, ◌⊎◌, inl, inr, true, false, ◌||◌, List, [], ◌∷◌,
  ◌++◌, arith, In, Distinct, In-last, last-In, Distinct-last, length, length-append, if◌then◌else◌,
  ◌==◌, Bool-cases,
}
use llama_proxy.Scheduler.Process.{pid_in}
use llama_proxy.Scheduler.Signals.{pid_in→In}
use llama_proxy.Scheduler.Tree.{Table, process_children, Walk, visit_one, visit}

-- A process below the root.
pub data Below (table : Table) (root : ℕ) : ℕ → Type 0 where
  top : Below table root root
  child : {p q : ℕ} → Below table root p → In q (process_children table p) → Below table root q

-- All children of a process are there.
abbrev pub IsClosed : Table → List ℕ → ℕ → Type 0
IsClosed table out p = (q : ℕ) → In q (process_children table p) → In q out

pub In→pid_in : (ps : List ℕ) (pid : ℕ) → In pid ps → pid_in ps pid ≡ true
unfolding pid_in
In→pid_in [] pid h = absurd h
In→pid_in (p ∷ ps) pid (inl e) = ground (arith, e)
In→pid_in (p ∷ ps) pid (inr h) = ground (arith, In→pid_in ps pid h)

-- The processes of the table that are not found yet.
abbrev pub unseen : List ℕ → Table → ℕ
unseen out [] = 0
unseen out ((pid, ppid) ∷ table) = unseen out table + (if pid_in out pid then 0 else 1)

pid_in-append : (xs ys : List ℕ) (p : ℕ) → pid_in (xs ++ ys) p ≡ (pid_in xs p || pid_in ys p)
unfolding pid_in
pid_in-append [] ys p = refl
pid_in-append (x ∷ xs) ys p = ground (arith, pid_in-append xs ys p)

unseen-step :
    (out : List ℕ) (c : ℕ) (table : Table) → unseen (out ++ c ∷ []) table ≤ unseen out table
unfolding pid_in
unseen-step out c [] = omega arith
unseen-step out c ((pid, ppid) ∷ table) =
    ground (arith, unseen-step out c table, pid_in-append out (c ∷ []) pid)

children-cases :
    (c parent pid ppid : ℕ) (table : Table)
    → In c (process_children ((pid, ppid) ∷ table) parent)
    → (pid ≡ c) ⊎ In c (process_children table parent)
unfolding process_children
children-cases c parent pid ppid table m = elim (Bool-cases (ppid == parent)) [
  | inl e ↦ rw (e, process_children) at m
  | inr o ↦ inr (rw (o, process_children) at m)
]

unseen-drops :
    (out : List ℕ) (c parent : ℕ) (table : Table)
    → In c (process_children table parent)
    → pid_in out c ≡ false
    → unseen (out ++ c ∷ []) table < unseen out table
unfolding pid_in process_children
unseen-drops out c parent [] m new = absurd m
unseen-drops out c parent ((pid, ppid) ∷ table) m new =
    elim (children-cases c parent pid ppid table m) [
      | inl e ↦ ground (
        arith,
        unseen-step out c table,
        pid_in-append out (c ∷ []) pid,
        e,
        ap (pid_in out) e,
        new,
      )
      | inr later ↦
          ground (arith, unseen-drops out c parent table later new, pid_in-append out (c ∷ []) pid)
    ]

pub unseen_bound : (out : List ℕ) (table : Table) → unseen out table ≤ length table
unseen_bound out [] = omega arith
unseen_bound out ((pid, ppid) ∷ table) = ground (arith, unseen_bound out table)

module _ (table : Table) (root : ℕ) where
  -- What holds of the loops' variables at each step.
  pub record IsWalk (w : Walk) : Type 0 where
    pub same : w.seen ≡ w.out
    pub distinct : Distinct w.out
    pub rooted : In root w.out
    pub below : (p : ℕ) → In p w.out → Below table root p
    pub queued : (p : ℕ) → In p w.queue → In p w.out

  -- Every process that was found is closed, waits in the queue, or is the one whose children are visited.
  abbrev pub Pending : (ℕ → Type 0) → Walk → Type 0
  Pending Busy w = (p : ℕ) → In p w.out → Busy p ⊎ In p w.queue ⊎ IsClosed table w.out p

  visit_one-IsWalk :
      (w : Walk) (cur c : ℕ)
      → IsWalk w
      → In cur w.out
      → In c (process_children table cur)
      → IsWalk (visit_one w c)
  visit_one-IsWalk w cur c k here m = elim (Bool-cases (pid_in w.seen c)) [
    | inl old ↦ rw old k
    | inr new ↦ rw new (record {
      same = rw k.same refl;
      distinct =
          Distinct-last c w.out k.distinct (λ h. ground (arith, In→pid_in w.out c h, new, k.same));
      rooted = last-In root c w.out (inr k.rooted);
      below = λ p h. elim (In-last p c w.out h) [
        | inl e ↦ subst (Below table root) e (child (k.below cur here) m)
        | inr old ↦ k.below p old
      ];
      queued = λ p h. elim (In-last p c w.queue h) [
        | inl e ↦ last-In p c w.out (inl e)
        | inr old ↦ last-In p c w.out (inr (k.queued p old))
      ];
    })
  ]

  visit_one-keeps : (w : Walk) (c p : ℕ) → In p w.out → In p (visit_one w c).out
  visit_one-keeps w c p h = elim (Bool-cases (pid_in w.seen c)) [
    | inl old ↦ rw old h
    | inr new ↦ rw new (last-In p c w.out (inr h))
  ]

  visit_one-finds : (w : Walk) (c : ℕ) → w.seen ≡ w.out → In c (visit_one w c).out
  visit_one-finds w c same = elim (Bool-cases (pid_in w.seen c)) [
    | inl old ↦ rw old (pid_in→In w.out c (ap (λ x. pid_in x c) (sym same) ∙ old))
    | inr new ↦ rw new (last-In c c w.out (inl refl))
  ]

  visit_one-Pending :
      (Busy : ℕ → Type 0) (w : Walk) (c : ℕ) → Pending Busy w → Pending Busy (visit_one w c)
  visit_one-Pending Busy w c k = elim (Bool-cases (pid_in w.seen c)) [
    | inl old ↦ rw old k
    | inr new ↦ rw new (λ p h. elim (In-last p c w.out h) [
      | inl e ↦ inr (inl (last-In p c w.queue (inl e)))
      | inr there ↦ elim (k p there) [
        | inl busy ↦ inl busy
        | inr rest ↦ elim rest [
          | inl waits ↦ inr (inl (last-In p c w.queue (inr waits)))
          | inr closed ↦ inr (inr (λ q m. last-In q c w.out (inr (closed q m))))
        ]
      ]
    ])
  ]

  -- A visit takes no more rounds than it finds processes.
  abbrev pub rounds : Walk → ℕ
  rounds w = length w.queue + unseen w.out table

  visit_one-rounds :
      (w : Walk) (cur c : ℕ)
      → w.seen ≡ w.out
      → In c (process_children table cur)
      → rounds (visit_one w c) ≤ rounds w
  visit_one-rounds w cur c same m = elim (Bool-cases (pid_in w.seen c)) [
    | inl old ↦ rw old (omega arith)
    | inr new ↦ rw new (
        omega (
          arith,
          length-append w.queue (c ∷ []),
          unseen-drops w.out c cur table m (ap (λ x. pid_in x c) (sym same) ∙ new),
        ))
  ]

  -- What the inner loop leaves of what holds before it.
  pub record IsVisited (Busy : ℕ → Type 0) (w v : Walk) (cs : List ℕ) : Type 0 where
    pub walk : IsWalk v
    pub keeps : (p : ℕ) → In p w.out → In p v.out
    pub finds : (p : ℕ) → In p cs → In p v.out
    pub pending : Pending Busy v
    pub bounded : rounds v ≤ rounds w

  pub visit-IsVisited :
      (Busy : ℕ → Type 0) (w : Walk) (cur : ℕ) (cs : List ℕ)
      → ((c : ℕ) → In c cs → In c (process_children table cur))
      → IsWalk w
      → In cur w.out
      → Pending Busy w
      → IsVisited Busy w (visit w cs) cs
  unfolding visit
  visit-IsVisited Busy w cur [] sub k here pending = record {
    walk = k;
    keeps = λ p h. h;
    finds = λ p h. absurd h;
    pending = pending;
    bounded = omega arith;
  }
  visit-IsVisited Busy w cur (c ∷ cs) sub k here pending =
      let m = sub c (inl refl) in
      let later =
        visit-IsVisited Busy (visit_one w c) cur cs (λ d h. sub d (inr h))
          (visit_one-IsWalk w cur c k here m) (visit_one-keeps w c cur here)
          (visit_one-Pending Busy w c pending) in
      record {
        walk = later.walk;
        keeps = λ p h. later.keeps p (visit_one-keeps w c p h);
        finds = λ p h. elim h [
          | inl e ↦
              later.keeps p (subst (λ x. In x (visit_one w c).out) e (visit_one-finds w c k.same))
          | inr there ↦ later.finds p there
        ];
        pending = later.pending;
        bounded = omega (arith, later.bounded, visit_one-rounds w cur c k.same m);
      }
