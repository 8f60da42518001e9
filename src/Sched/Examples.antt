-- ===== src/Sched/Examples.antt =====
-- The scheduler of kernel/sched.c at concrete tables.
use chris_os.Sched.Fair
use chris_os.Base.{get_or-replicate, ℕ, zero, suc, ◌+◌, ◌≤◌, ◌≡◌, refl, ◌≢◌, true, false, some}
use chris_os.Base.{◌∷◌, arith, replicate}
use chris_os.Mm.{mm_init}
use chris_os.Sched.{Sched, Thread, ThreadState, dead, next_from, next_ready, no_thread, ready}
use chris_os.Sched.{running, sched_exit, sched_spawn, sched_tick, sched_yield, thread}
use chris_os.Sched.Choice.{Chosen, next_ready_lem}
use chris_os.Sched.Exit.{Exited, sched_exit-Exited}
use chris_os.Sched.Fair.{sched_yield-reaches}
use chris_os.Sched.Table.{IsSched, is_dead, is_running, steps-IsSched}

abbrev slot : ThreadState → ℕ → Thread
slot st i = record { esp = 0x3000 + i; stack_base = 0; entry = 0; state = st; id = i }

-- Three threads: the first runs, the second has ended, the third is ready.
abbrev three : Sched
three = record {
  threads = slot running 0 ∷ slot dead 1 ∷ slot ready 2 ∷ replicate 13 no_thread;
  current = 0;
  count = 3;
  heap = mm_init;
}

next_ready-three : next_ready three ≡ some 2
unfolding next_ready next_from
next_ready-three = refl

next_ready_lem_example : Chosen three 1 3 (next_ready three)
next_ready_lem_example = next_ready_lem three

alone_three : (i : ℕ) → i ≢ 0 → is_running (thread three i).state ≡ false
alone_three zero h = absurd (h refl)
alone_three (suc zero) h = refl
alone_three (suc (suc zero)) h = refl
alone_three (suc (suc (suc i))) h = rw (get_or-replicate 13 i no_thread) refl

unused_three : (i : ℕ) → 3 ≤ i → is_dead (thread three i).state ≡ true
unused_three zero h = absurd (omega arith)
unused_three (suc zero) h = absurd (omega arith)
unused_three (suc (suc zero)) h = absurd (omega arith)
unused_three (suc (suc (suc i))) h = rw (get_or-replicate 13 i no_thread) refl

three-IsSched : IsSched three
three-IsSched = record {
  size = refl;
  at_most = omega arith;
  current_in = omega arith;
  runs = refl;
  alone = alone_three;
  unused = unused_three;
}

steps-IsSched_example :
    IsSched (sched_yield three).1
    × IsSched (sched_tick three).1
    × IsSched (sched_spawn three 0x8000).1
steps-IsSched_example = steps-IsSched three 0x8000 three-IsSched

sched_exit-Exited_example : Exited three (sched_exit three)
sched_exit-Exited_example = sched_exit-Exited three three-IsSched

-- A table in which all sixteen slots have been used and all threads but the first have ended.
abbrev used_up : Sched
used_up = record {
  threads = slot running 0 ∷ replicate 15 (slot dead 1);
  current = 0;
  count = 16;
  heap = mm_init;
}

sched_yield-reaches_example : (n : ℕ) × (n ≤ 15) × ((Fair.yields n three).current ≡ 2)
sched_yield-reaches_example = sched_yield-reaches three 2 three-IsSched (omega arith) refl
