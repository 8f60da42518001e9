-- ===== src/Sched/Choice.antt =====
-- Which thread `next_ready` of kernel/sched.c chooses.
use chris_os.Base.{ℕ, zero, suc, ◌+◌, ◌%◌, ◌≤◌, ◌<◌, ◌≡◌, refl, inl, inr, true, false, Option}
use chris_os.Base.{none, some, arith, Bool-cases}
use native.Mathlib.Decide.{ℕ_discrete}
use chris_os.Sched.{Sched, thread, can_run, next_from, next_ready}

-- No thread at a distance from `lo` up to below `hi` behind the current one can run.
abbrev pub NoneRuns : Sched → ℕ → ℕ → Type 0
NoneRuns s lo hi =
    (k : ℕ) → lo ≤ k → k < hi → can_run (thread s ((s.current + k) % s.count)).state ≡ false

-- What the search has found from distance `i` on, up to `n`.
abbrev pub Chosen : Sched → ℕ → ℕ → Option ℕ → Type 0
Chosen s i n none = NoneRuns s i (n + 1)
Chosen s i n (some idx) =
    (k : ℕ) × (i ≤ k)
    × (k ≤ n)
    × (idx ≡ (s.current + k) % s.count)
    × (can_run (thread s idx).state ≡ true)
    × NoneRuns s i k

later :
    (s : Sched) (i hi k : ℕ)
    → i ≤ k
    → k < hi
    → can_run (thread s ((s.current + i) % s.count)).state ≡ false
    → NoneRuns s (i + 1) hi
    → can_run (thread s ((s.current + k) % s.count)).state ≡ false
later s i hi k lo below d rest = elim (ℕ_discrete k i) [
  | yes e ↦ rw e d
  | no ne ↦ rest k (omega arith) below
]

skip-Chosen :
    (s : Sched) (i n : ℕ) (r : Option ℕ)
    → can_run (thread s ((s.current + i) % s.count)).state ≡ false
    → Chosen s (i + 1) n r
    → Chosen s i n r
skip-Chosen s i n none d c = λ k lo hi. later s i (n + 1) k lo hi d c
skip-Chosen s i n (some idx) d (k, lo, hi, e, runs, before) =
    (k, omega arith, hi, e, runs, λ j a b. later s i k j a b d before)

next_from-Chosen : (s : Sched) (left i n : ℕ) → i + left ≡ n + 1 → Chosen s i n (next_from s left i)
unfolding next_from
next_from-Chosen s zero i n e = λ k lo hi. absurd (omega arith)
next_from-Chosen s (suc left) i n e =
    elim (Bool-cases (can_run (thread s ((s.current + i) % s.count)).state)) [
      | inl y ↦ rw y (i, omega arith, omega arith, refl, y, λ k lo hi. absurd (omega arith))
      | inr d ↦ rw d (
          skip-Chosen s i n (next_from s left (i + 1)) d
            (next_from-Chosen s left (i + 1) n (omega arith)))
    ]

-- `next_ready` goes once round the table: it chooses the nearest thread behind the current one that
-- can run, the current one last, and nothing only if no thread of the table can run.
pub next_ready_lem : (s : Sched) → Chosen s 1 s.count (next_ready s)
unfolding next_ready
next_ready_lem s = next_from-Chosen s s.count 1 s.count (omega arith)
