-- ===== src/Scheduler/Tree.antt =====
-- internal/scheduler/procresolve.go: the process tree that `killTree` signals. `table` lists the processes of /proc with
-- their parents, in the order of the directory; it does not change while a tree is collected. The
-- texts of /proc/<pid>/stat are read in Tree/Stat.
pub mod Visit
pub mod Collect
pub mod Stat
use llama_proxy.Prelude.{
  ℕ, zero, suc, Bool, true, false, not, Option, none, some, List, [], ◌∷◌, ◌++◌, if◌then◌else◌,
  ◌==◌, keep_if, length, map,
}
use llama_proxy.Scheduler.Process.{pid_in}

-- A process and its parent.
abbrev pub Table : Type 0
Table = List (ℕ × ℕ)

unfoldable pub process_children : Table → ℕ → List ℕ
process_children [] parent = []
process_children ((pid, ppid) ∷ table) parent =
    let rest = process_children table parent in if ppid == parent then pid ∷ rest else rest

-- The variables of `collectTree`.
pub record Walk : Type 0 where
  pub out : List ℕ
  pub queue : List ℕ
  pub seen : List ℕ

abbrev pub visit_one : Walk → ℕ → Walk
visit_one w child =
    if not (pid_in w.seen child)
    then record {
      out = w.out ++ child ∷ [];
      queue = w.queue ++ child ∷ [];
      seen = w.seen ++ child ∷ [];
    }
    else w

-- The inner loop.
unfoldable pub visit : Walk → List ℕ → Walk
visit w [] = w
visit w (child ∷ children) = visit (visit_one w child) children

-- The outer loop, on fuel.
unfoldable pub collect : ℕ → Table → Walk → Option (List ℕ)
unfolding visit
collect zero table w = none
collect (suc fuel) table w = elim w.queue [
  | [] ↦ some w.out
  | cur ∷ rest ↦ collect fuel table (visit (record w { queue = rest }) (process_children table cur))
]

-- Each process is taken from the queue once, and the last round finds it empty.
unfoldable pub collect_tree : Table → ℕ → Option (List ℕ)
unfolding collect
collect_tree table root =
    collect (suc (suc (length table))) table
      (record { out = root ∷ []; queue = root ∷ []; seen = root ∷ [] })

-- A signal to a process, or to a process group.
pub data Signal : Type 0 where
  process : ℕ → Signal
  group : ℕ → Signal

-- The signals that `killTree` sends, in order; `pgid` is the process group of the target.
unfoldable pub kill_tree : (ℕ → Bool) → Table → ℕ → ℕ → Option (List Signal)
unfolding collect_tree
kill_tree alive table pid pgid =
    if not (alive pid)
    then some []
    else if pgid == pid
    then some (group pid ∷ [])
    else elim (collect_tree table pid) [
      | none ↦ none
      | some pids ↦ some (map process (keep_if (λ p. not (p == pid)) pids) ++ process pid ∷ [])
    ]
