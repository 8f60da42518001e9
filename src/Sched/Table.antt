-- ===== src/Sched/Table.antt =====
-- What every step of kernel/sched.c keeps of the thread table.
use chris_os.Base.{ℕ, ◌+◌, ◌≤◌, ◌<◌, ◌≡◌, refl, ◌∙◌, ◌≢◌, inl, inr, Bool, true, false, Option}
use chris_os.Base.{none, some, arith, ◌==◌, leb, if◌then◌else◌, Bool-cases, length, get_or}
use chris_os.Base.{set, length-set, get_or-set}
use chris_os.Mm.{Heap, kmalloc}
use chris_os.Sched.{occupy, take_turn, Sched, Thread, ThreadState, ready, running, dead}
use chris_os.Sched.{no_thread, thread, put_thread, can_run, next_ready, sched_max_threads}
use chris_os.Sched.{sched_stack_size, sched_spawn, switch_to, sched_yield, sched_tick}
use chris_os.Sched.Choice.{Chosen, next_ready_lem}

abbrev pub is_running : ThreadState → Bool
is_running running = true
is_running _ = false

abbrev pub is_dead : ThreadState → Bool
is_dead dead = true
is_dead _ = false

-- The table has its 16 slots, the current thread is in use and is the only one that runs, and the
-- slots that are not in use yet are dead.
pub record IsSched (s : Sched) : Type 0 where
  pub size : length s.threads ≡ sched_max_threads
  pub at_most : s.count ≤ sched_max_threads
  pub current_in : s.current < s.count
  pub runs : is_running (thread s s.current).state ≡ true
  pub alone : (i : ℕ) → i ≢ s.current → is_running (thread s i).state ≡ false
  pub unused : (i : ℕ) → s.count ≤ i → is_dead (thread s i).state ≡ true

-- The states after a switch.
pub state-switch_to :
    (s : Sched) (next i : ℕ)
    → next < length s.threads
    → s.current < length s.threads
    → next ≢ s.current
    → (thread (switch_to s next) i).state
      ≡ (if i == next then running else if i == s.current then ready else (thread s i).state)
unfolding switch_to
state-switch_to s next i hn hc ne =
    let paused = set s.threads s.current (record (thread s s.current) { state = ready }) in
    let outer =
      get_or-set paused next i (record (get_or paused next no_thread) { state = running })
        no_thread in
    let inner =
      get_or-set s.threads s.current i (record (thread s s.current) { state = ready }) no_thread in
    ground (
      arith,
      outer,
      inner,
      length-set s.threads s.current (record (thread s s.current) { state = ready }),
    )

module _ (s : Sched) (v : IsSched s) (next : ℕ) (inside : next < s.count)
    (ne : next ≢ s.current) where
  states :
      (i : ℕ)
      → (thread (switch_to s next) i).state
        ≡ (if i == next then running else if i == s.current then ready else (thread s i).state)
  states i =
      state-switch_to s next i (omega (arith, v.size, v.at_most))
        (omega (arith, v.size, v.at_most, v.current_in)) ne

  pub switch_to-IsSched : IsSched (switch_to s next)
  unfolding switch_to
  switch_to-IsSched = record {
    size =
        length-set (set s.threads s.current (record (thread s s.current) { state = ready })) next _
        ∙ (length-set s.threads s.current (record (thread s s.current) { state = ready }) ∙ v.size);
    at_most = v.at_most;
    current_in = inside;
    runs = ground (arith, states next);
    alone = λ i other. ground (arith, states i, v.alone i);
    unused = λ i out. ground (arith, states i, v.unused i, v.current_in);
  }

pub Chosen-lt :
    (s : Sched) (i n next : ℕ)
    → 0 < s.count
    → Chosen s i n (some next)
    → (next < s.count) × (can_run (thread s next).state ≡ true)
Chosen-lt s i n next h (k, lo, hi, e, runs, before) = (omega arith, runs)

take_turn-IsSched :
    (s : Sched) (r : Option ℕ) → IsSched s → Chosen s 1 s.count r → IsSched (take_turn s r).1
unfolding take_turn
take_turn-IsSched s none v c = v
take_turn-IsSched s (some next) v c = elim (Bool-cases (next == s.current)) [
  | inl e ↦ rw e v
  | inr n ↦ rw n (
      switch_to-IsSched s v next (Chosen-lt s 1 s.count next (omega (arith, v.current_in)) c).0
        (λ e. ground arith))
]

-- A new thread in the first unused slot.
spawned-IsSched :
    (s : Sched) (t : Thread) (h : Heap)
    → IsSched s
    → s.count < sched_max_threads
    → is_running t.state ≡ false
    → IsSched (record {
      threads = put_thread s s.count t;
      current = s.current;
      count = s.count + 1;
      heap = h;
    })
spawned-IsSched s t h v room idle =
    let states : (i : ℕ)
        → get_or (put_thread s s.count t) i no_thread ≡ (if i == s.count then t else thread s i) =
      λ i. get_or-set s.threads s.count i t no_thread (omega (arith, v.size)) in
    record {
      size = length-set s.threads s.count t ∙ v.size;
      at_most = omega arith;
      current_in = omega (arith, v.current_in);
      runs = ground (arith, states s.current, v.runs, v.current_in);
      alone = λ i other. ground (arith, states i, v.alone i);
      unused = λ i out. ground (arith, states i, v.unused i);
    }

stackless-IsSched :
    (s : Sched)
    → IsSched s
    → s.count < sched_max_threads
    → IsSched
        (record s { threads = put_thread s s.count (record (thread s s.count) { stack_base = 0 }) })
stackless-IsSched s v room =
    let t : Thread = record (thread s s.count) { stack_base = 0 } in
    let states : (i : ℕ)
        → get_or (put_thread s s.count t) i no_thread ≡ (if i == s.count then t else thread s i) =
      λ i. get_or-set s.threads s.count i t no_thread (omega (arith, v.size)) in
    record {
      size = length-set s.threads s.count t ∙ v.size;
      at_most = v.at_most;
      current_in = v.current_in;
      runs = ground (arith, states s.current, v.runs, v.current_in);
      alone = λ i other. ground (arith, states i, v.alone i);
      unused = λ i out. ground (arith, states i, v.unused i);
    }

occupy-IsSched :
    (s : Sched) (entry : ℕ) (r : Option (ℕ × Heap))
    → IsSched s
    → s.count < sched_max_threads
    → IsSched (occupy s entry r).1
unfolding occupy
occupy-IsSched s entry none v room = stackless-IsSched s v room
occupy-IsSched s entry (some (base, heap)) v room = spawned-IsSched s _ heap v room refl

sched_spawn-IsSched : (s : Sched) (entry : ℕ) → IsSched s → IsSched (sched_spawn s entry).1
unfolding sched_spawn
sched_spawn-IsSched s entry v = elim (Bool-cases (leb sched_max_threads s.count)) [
  | inl full ↦ rw full v
  | inr room ↦ rw room (occupy-IsSched s entry (kmalloc sched_stack_size s.heap) v (ground arith))
]

-- Every operation that returns to a thread keeps the table well-formed: yielding, a tick of the
-- timer, and spawning, whether it succeeds, finds no slot or gets no stack.
pub steps-IsSched :
    (s : Sched) (entry : ℕ)
    → IsSched s
    → IsSched (sched_yield s).1 × IsSched (sched_tick s).1 × IsSched (sched_spawn s entry).1
unfolding sched_yield sched_tick
steps-IsSched s entry v = (
  take_turn-IsSched s (next_ready s) v (next_ready_lem s),
  take_turn-IsSched s (next_ready s) v (next_ready_lem s),
  sched_spawn-IsSched s entry v,
)
