-- ===== src/Scheduler/GpuWait.antt =====
-- internal/scheduler/gpuwait.go: `waitForGPURelease` as a loop over the readings of the used memory,
-- in MiB. `reading n` is the n-th total, `none` where nvidia-smi fails; `late n` and `ended n` tell
-- whether the deadline has passed and the context is done by then.
use llama_proxy.Prelude.{
  ℕ, zero, suc, ◌+◌, ◌-◌, ◌*◌, ◌≤◌, ◌<◌, Bool, ◌&&◌, ◌||◌, Option, none, some, if◌then◌else◌, ltb,
  leb, ◌==◌,
}

pub data Verdict : Type 0 where
  no_gpu : Verdict
  cancelled : Verdict
  released : (last : ℕ) → Verdict
  unchanged : (last : ℕ) → Verdict
  timed_out : (last : ℕ) → Verdict
  out_of_fuel : Verdict

abbrev pub drop_threshold : ℕ
drop_threshold = 512

abbrev pub stable_reads : ℕ
stable_reads = 3

module _ (reading : ℕ → Option ℕ) (late ended : ℕ → Bool) (baseline : ℕ) where
  -- The tests at the end of a round; `none` goes on.
  unfoldable pub judge : ℕ → ℕ → ℕ → Option Verdict
  judge n last stable =
      let dropped = baseline - last in
      if (leb drop_threshold dropped && leb stable_reads stable) || leb (drop_threshold * 4) dropped
      then some (released last)
      else if leb stable_reads stable && ltb dropped drop_threshold
      then some (unchanged last)
      else if late n
      then some (timed_out last)
      else none

  unfoldable pub wait_loop : ℕ → ℕ → ℕ → ℕ → Verdict
  wait_loop zero n last stable = out_of_fuel
  wait_loop (suc fuel) n last stable = if ended n then cancelled else elim (reading n) [
    | none ↦ no_gpu
    | some total ↦
        let falls = ltb total last in
        let next_last = if falls then total else last in
        let next_stable = if falls then 0 else stable + 1 in
        let rest = wait_loop fuel (n + 1) next_last next_stable in
        elim (judge n next_last next_stable) [ some v ↦ v | none ↦ rest ]
  ]

  -- Without a baseline there is nothing to wait for.
  unfoldable pub wait_for_gpu_release : ℕ → Verdict
  unfolding wait_loop
  wait_for_gpu_release fuel = if baseline == 0 then no_gpu else wait_loop fuel 0 baseline 0

  -- The rounds left: each either lowers the least total or counts as stable.
  abbrev rounds_left : ℕ → ℕ → ℕ
  rounds_left last stable = 4 * (2048 - (baseline - last)) + (4 - stable)

  -- What a verdict says of the least total that was read.
  abbrev pub IsSettled : Verdict → Type 0
  IsSettled no_gpu = Unit
  IsSettled cancelled = Unit
  IsSettled (released last) = drop_threshold ≤ baseline - last
  IsSettled (unchanged last) = baseline - last < drop_threshold
  IsSettled (timed_out last) = baseline - last < 2048
  IsSettled out_of_fuel = ⊥
