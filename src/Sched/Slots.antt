-- ===== src/Sched/Slots.antt =====
-- The slots of the thread table of kernel/sched.c are never given back.
use chris_os.Base.{ℕ, ◌≤◌, ◌≡◌, refl, inl, inr, Option, none, some, arith, ◌==◌, Bool-cases}
use mathlib.Core.Path.{subst}
use chris_os.Mm.{Heap, kmalloc, kfree}
use chris_os.Sched.{after_free, Sched, thread, Action, next_ready, occupy, sched_max_threads}
use chris_os.Sched.{sched_stack_size, sched_spawn, take_turn, switch_to, sched_yield}
use chris_os.Sched.{sched_tick, leave, go_on, bury, sched_exit}

-- What the kernel does with the table, in any order.
pub data Step (s : Sched) : Sched → Type 0 where
  yields : Step s (sched_yield s).1
  ticks : Step s (sched_tick s).1
  spawns : (entry : ℕ) → Step s (sched_spawn s entry).1
  exits : (a : Action) (t : Sched) → sched_exit s ≡ some (a, t) → Step s t

pub data Reach (s : Sched) : Sched → Type 0 where
  here : Reach s s
  next : {t u : Sched} → Reach s t → Step t u → Reach s u

count-take_turn : (s : Sched) (r : Option ℕ) → (take_turn s r).1.count ≡ s.count
unfolding take_turn switch_to
count-take_turn s none = refl
count-take_turn s (some n) = ground arith

count-go_on : (s : Sched) (r : Option ℕ) → (go_on s r).1.count ≡ s.count
unfolding go_on
count-go_on s none = refl
count-go_on s (some n) = refl

count-leave : (s : Sched) → (leave s).1.count ≡ s.count
unfolding leave bury
count-leave s = count-go_on (bury s) (next_ready (bury s))

count-occupy :
    (s : Sched) (entry : ℕ) (r : Option (ℕ × Heap)) → s.count ≤ (occupy s entry r).1.count
unfolding occupy
count-occupy s entry none = omega arith
count-occupy s entry (some (b, h)) = omega arith

count-sched_spawn : (s : Sched) (entry : ℕ) → s.count ≤ (sched_spawn s entry).1.count
unfolding sched_spawn
count-sched_spawn s entry = ground (arith, count-occupy s entry (kmalloc sched_stack_size s.heap))

-- The count after an exit that is no fault.
abbrev Counts : Sched → Option (Action × Sched) → Type 0
Counts s none = Unit
Counts s (some (a, t)) = t.count ≡ s.count

after_free-Counts : (s : Sched) (r : Option Heap) → Counts s (after_free s r)
unfolding after_free
after_free-Counts s none = tt
after_free-Counts s (some h) = count-leave (record s { heap = h })

sched_exit-Counts : (s : Sched) → Counts s (sched_exit s)
unfolding sched_exit
sched_exit-Counts s = elim (Bool-cases ((thread s s.current).stack_base == 0)) [
  | inl e ↦ rw e (count-leave s)
  | inr n ↦ rw n (after_free-Counts s (kfree (thread s s.current).stack_base s.heap))
]

count-sched_exit : (s t : Sched) (a : Action) → sched_exit s ≡ some (a, t) → t.count ≡ s.count
count-sched_exit s t a e = subst (Counts s) e (sched_exit-Counts s)

Step-count : {s t : Sched} → Step s t → s.count ≤ t.count
unfolding sched_yield sched_tick
Step-count {s} yields = omega (arith, count-take_turn s (next_ready s))
Step-count {s} ticks = omega (arith, count-take_turn s (next_ready s))
Step-count {s} (spawns entry) = count-sched_spawn s entry
Step-count {s} (exits a t e) = omega (arith, count-sched_exit s t a e)

Reach-count : {s t : Sched} → Reach s t → s.count ≤ t.count
Reach-count here = omega arith
Reach-count (next r st) = omega (arith, Reach-count r, Step-count st)

-- Once the table has had its sixteen threads no thread can be spawned again, however many of them
-- have ended since and whatever else happens.
pub sched_spawn-exhausted :
    (s t : Sched) (entry : ℕ)
    → sched_max_threads ≤ s.count
    → Reach s t
    → (sched_spawn t entry).0 ≡ none
unfolding sched_spawn
sched_spawn-exhausted s t entry full r = ground (arith, Reach-count r)
