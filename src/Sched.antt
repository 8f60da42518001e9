-- ===== src/Sched.antt =====
-- kernel/sched.c: the thread table, round-robin choice, spawning, yielding and exiting.
--
-- What the CPU does next is the result: it goes on, it switches or jumps to a saved stack, or it
-- halts. A fault is a `kfree` of a stack that has no block header.
pub mod Choice
pub mod Table
pub mod Exit
pub mod Slots
pub mod Fair
mod Examples
use chris_os.Base.{ℕ, zero, suc, ◌+◌, ◌-◌, ◌*◌, ◌/◌, ◌%◌, ◌^◌, ◌≤◌, ◌<◌, min, bit_and, ◌≡◌}
use chris_os.Base.{refl, sym, ap, ap₂, ◌∙◌, ◌≢◌, ◌↔◌, ◌⊎◌, inl, inr, Bool, true, false, not}
use chris_os.Base.{◌&&◌, ◌||◌, Option, none, some, List, [], ◌∷◌, ◌++◌, map, arith, ◌==◌, ltb}
use chris_os.Base.{leb, if◌then◌else◌, eq→==, ne→==, ==→eq, lt→ltb, le→ltb, Bool-cases}
use chris_os.Base.{Option-cases, length, get_or, set, take, drop, replicate, length-append}
use chris_os.Base.{length-set, length-replicate, get_or-set_self, get_or-set_ne, All}
use chris_os.Mm.{Heap, kmalloc, kfree}

pub data ThreadState : Type 0 where
  ready running dead : ThreadState

pub record Thread : Type 0 where
  pub esp : ℕ
  pub stack_base : ℕ
  pub entry : ℕ
  pub state : ThreadState
  pub id : ℕ

-- The file's statics, with the heap that stacks come from.
pub record Sched : Type 0 where
  pub threads : List Thread
  pub current : ℕ
  pub count : ℕ
  pub heap : Heap

abbrev pub sched_stack_size : ℕ
sched_stack_size = 8192

abbrev pub sched_max_threads : ℕ
sched_max_threads = 16

abbrev pub no_thread : Thread
no_thread = record { esp = 0; stack_base = 0; entry = 0; state = dead; id = 0 }

abbrev pub thread : Sched → ℕ → Thread
thread s i = get_or s.threads i no_thread

abbrev pub put_thread : Sched → ℕ → Thread → List Thread
put_thread s i t = set s.threads i t

abbrev pub can_run : ThreadState → Bool
can_run ready = true
can_run running = true
can_run dead = false

-- The loop of `next_ready` with `left` rounds to go, at its index `i`.
unfoldable pub next_from : Sched → ℕ → ℕ → Option ℕ
next_from s zero i = none
next_from s (suc left) i =
    let idx = (s.current + i) % s.count in
    let rest = next_from s left (i + 1) in if can_run (thread s idx).state then some idx else rest

unfoldable pub next_ready : Sched → Option ℕ
next_ready s = next_from s s.count 1

-- The loop of `sched_init` over the table.
unfoldable pub clear_threads : List Thread → List Thread
clear_threads [] = []
clear_threads (t ∷ ts) = record t { state = dead; stack_base = 0; entry = 0 } ∷ clear_threads ts

unfoldable pub sched_init : Sched → Sched
sched_init s =
    let cleared = clear_threads s.threads in
    record s {
      threads =
          set cleared 0
            (record (get_or cleared 0 no_thread) { state = running; id = 0; stack_base = 0 });
      count = 1;
      current = 0;
    }

-- The words that `sched_spawn` leaves on a new stack, from the stack pointer up.
abbrev pub first_frame : ℕ → List ℕ
first_frame trampoline = 0 ∷ 0 ∷ 0 ∷ 0 ∷ 0x00000202 ∷ trampoline ∷ []

-- What `sched_spawn` does with the stack that it has got, if it has got one: the new thread's place,
-- or `none` for -1.
unfoldable pub occupy : Sched → ℕ → Option (ℕ × Heap) → Option ℕ × Sched
occupy s entry none = (
  none,
  record s { threads = put_thread s s.count (record (thread s s.count) { stack_base = 0 }) },
)
occupy s entry (some (base, heap)) = (
  some s.count,
  record {
    threads = put_thread s s.count (record {
      esp = base + sched_stack_size - 6 * 4;
      stack_base = base;
      entry = entry;
      state = ready;
      id = s.count;
    });
    current = s.current;
    count = s.count + 1;
    heap = heap;
  },
)

unfoldable pub sched_spawn : Sched → ℕ → Option ℕ × Sched
sched_spawn s entry =
    if leb sched_max_threads s.count
    then (none, s)
    else occupy s entry (kmalloc sched_stack_size s.heap)

pub data Action : Type 0 where
  stay : Action
  switch : ℕ → ℕ → Action
  jump : ℕ → Action
  halt : Action

-- The switch that `sched_yield` and `sched_tick` make to another thread.
unfoldable pub switch_to : Sched → ℕ → Sched
switch_to s next =
    let paused = set s.threads s.current (record (thread s s.current) { state = ready }) in
    record s {
      threads = set paused next (record (get_or paused next no_thread) { state = running });
      current = next;
    }

-- What follows the search in `sched_yield` and in `sched_tick`.
unfoldable pub take_turn : Sched → Option ℕ → Action × Sched
take_turn s none = (stay, s)
take_turn s (some next) =
    if next == s.current then (stay, s) else (switch s.current next, switch_to s next)

unfoldable pub sched_yield : Sched → Action × Sched
sched_yield s = take_turn s (next_ready s)

-- The timer's handler takes the same steps as `sched_yield`, with interrupts off already.
unfoldable pub sched_tick : Sched → Action × Sched
sched_tick s = take_turn s (next_ready s)

-- The rest of `sched_exit` behind the marking of the current thread as dead.
unfoldable pub go_on : Sched → Option ℕ → Action × Sched
go_on s none = (halt, s)
go_on s (some next) = (
  jump (thread s next).esp,
  record s {
    threads = set s.threads next (record (thread s next) { state = running });
    current = next;
  },
)

-- `threads[current]` without its stack, and dead.
unfoldable pub bury : Sched → Sched
bury s = record s {
  threads = set s.threads s.current (record (thread s s.current) { stack_base = 0; state = dead });
}

-- The exit of the current thread when its stack is given back.
unfoldable pub leave : Sched → Action × Sched
leave s = go_on (bury s) (next_ready (bury s))

-- The exit once `kfree` has returned; `none` is a fault.
unfoldable pub after_free : Sched → Option Heap → Option (Action × Sched)
after_free s none = none
after_free s (some heap) = some (leave (record s { heap = heap }))

unfoldable pub sched_exit : Sched → Option (Action × Sched)
sched_exit s =
    let base = (thread s s.current).stack_base in
    if base == 0 then some (leave s) else after_free s (kfree base s.heap)
