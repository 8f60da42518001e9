-- ===== src/Sched/Exit.antt =====
-- How a thread leaves, in kernel/sched.c.
use chris_os.Base.{sym, ℕ, ◌+◌, ◌≤◌, ◌<◌, ◌≡◌, refl, ◌∙◌, inl, inr, true, false, Option, none}
use chris_os.Base.{some, arith, ◌==◌, if◌then◌else◌, Bool-cases, length, get_or, set}
use chris_os.Base.{length-set, get_or-set}
use chris_os.Mm.{kfree, Heap}
use chris_os.Sched.{sched_exit, after_free, bury, go_on, Sched, Thread, running, dead}
use chris_os.Sched.{no_thread, thread, next_ready, sched_max_threads, leave, Action, stay}
use chris_os.Sched.{switch, jump, halt}
use chris_os.Sched.Choice.{NoneRuns, Chosen, next_ready_lem}
use chris_os.Sched.Table.{IsSched, Chosen-lt, is_running, is_dead}

-- What holds when the current thread has left: either the CPU halts and no thread can run, or it goes
-- on in the saved stack of the one thread that runs now, in a well-formed table.
abbrev pub Left : Action → Sched → Type 0
Left stay s = ⊥
Left (switch a b) s = ⊥
Left (jump esp) s = IsSched s × (esp ≡ (thread s s.current).esp)
Left halt s = NoneRuns s 1 (s.count + 1)

-- The table when the current thread is dead and no other runs.
record IsBetween (s : Sched) : Type 0 where
  size : length s.threads ≡ sched_max_threads
  at_most : s.count ≤ sched_max_threads
  current_in : s.current < s.count
  idle : (i : ℕ) → is_running (thread s i).state ≡ false
  unused : (i : ℕ) → s.count ≤ i → is_dead (thread s i).state ≡ true

bury-IsBetween : (s : Sched) → IsSched s → IsBetween (bury s)
unfolding bury
bury-IsBetween s v =
    let t : Thread = record (thread s s.current) { stack_base = 0; state = dead } in
    let states : (i : ℕ)
        → get_or (set s.threads s.current t) i no_thread
          ≡ (if i == s.current then t else thread s i) =
      λ i.
        get_or-set s.threads s.current i t no_thread
          (omega (arith, v.size, v.at_most, v.current_in)) in
    record {
      size = length-set s.threads s.current t ∙ v.size;
      at_most = v.at_most;
      current_in = v.current_in;
      idle = λ i. ground (arith, states i, v.alone i);
      unused = λ i out. ground (arith, states i, v.unused i);
    }

go_on-Left :
    (s : Sched) (r : Option ℕ)
    → IsBetween s
    → Chosen s 1 s.count r
    → Left (go_on s r).0 (go_on s r).1
unfolding go_on
go_on-Left s none v c = c
go_on-Left s (some next) v c =
    let inside = (Chosen-lt s 1 s.count next (omega (arith, v.current_in)) c).0 in
    let t : Thread = record (thread s next) { state = running } in
    let states : (i : ℕ)
        → get_or (set s.threads next t) i no_thread ≡ (if i == next then t else thread s i) =
      λ i. get_or-set s.threads next i t no_thread (omega (arith, v.size, v.at_most, inside)) in
    (
      record {
        size = length-set s.threads next t ∙ v.size;
        at_most = v.at_most;
        current_in = inside;
        runs = ground (arith, states next);
        alone = λ i other. ground (arith, states i, v.idle i);
        unused = λ i out. ground (arith, states i, v.unused i, inside);
      },
      ground (arith, states next),
    )

leave-Left : (s : Sched) → IsSched s → Left (leave s).0 (leave s).1
unfolding leave
leave-Left s v =
    go_on-Left (bury s) (next_ready (bury s)) (bury-IsBetween s v) (next_ready_lem (bury s))

-- What `sched_exit` has done, or the fault of giving back a stack that is no block of the heap.
abbrev pub Exited : Sched → Option (Action × Sched) → Type 0
Exited s none = kfree (thread s s.current).stack_base s.heap ≡ none
Exited s (some (a, t)) = Left a t

after_free-Exited :
    (s : Sched) (r : Option Heap)
    → IsSched s
    → r ≡ kfree (thread s s.current).stack_base s.heap
    → Exited s (after_free s r)
unfolding after_free
after_free-Exited s none v e = sym e
after_free-Exited s (some h) v e =
    leave-Left (record s { heap = h })
      (record {
        size = v.size;
        at_most = v.at_most;
        current_in = v.current_in;
        runs = v.runs;
        alone = v.alone;
        unused = v.unused;
      })

-- `sched_exit` in a well-formed table: the CPU goes on in the saved stack of the one thread that runs
-- now, in a well-formed table, or it halts, and then no thread of the table can run. It faults only
-- where `kfree` finds no block at the thread's stack.
pub sched_exit-Exited : (s : Sched) → IsSched s → Exited s (sched_exit s)
unfolding sched_exit
sched_exit-Exited s v = elim (Bool-cases ((thread s s.current).stack_base == 0)) [
  | inl e ↦ rw e (leave-Left s v)
  | inr n ↦ rw n (after_free-Exited s (kfree (thread s s.current).stack_base s.heap) v refl)
]
