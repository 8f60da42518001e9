-- ===== src/Sched/Fair.antt =====
-- The round robin of kernel/sched.c is fair: yielding again and again reaches every thread that can
-- run.
use chris_os.Base.{if_lem, ℕ, zero, suc, ◌+◌, ◌-◌, ◌%◌, ◌≤◌, ◌<◌, ◌≡◌, refl, sym, ap, ◌∙◌, ◌≢◌}
use chris_os.Base.{inl, inr, true, Option, none, some, arith, ◌==◌, ltb, if◌then◌else◌, ne→==}
use chris_os.Base.{Bool-cases}
use mathlib.Core.Path.{subst}
use native.Mathlib.Nat.{mod-add-mod, add-mod_right, mod-eq_of_lt}
use chris_os.Sched.{Sched, thread, can_run, next_ready, switch_to, take_turn, sched_yield}
use chris_os.Sched.{ready, running}
use chris_os.Sched.Choice.{Chosen, next_ready_lem}
use chris_os.Sched.Table.{IsSched, state-switch_to, switch_to-IsSched}

-- `n` calls of `sched_yield`, by whatever threads are current.
unfoldable pub yields : ℕ → Sched → Sched
yields zero s = s
yields (suc n) s = yields n (sched_yield s).1

-- Going on by less than a round ends elsewhere.
round_moves : (c k n : ℕ) → c < n → 1 ≤ k → k < n → (c + k) % n ≢ c
round_moves c k n h lo hi e = elim (Bool-cases (ltb (c + k) n)) [
  | inl b ↦
      let inside : c + k < n = ground (arith, b) in absurd (omega (arith, mod-eq_of_lt inside))
  | inr b ↦
      let outside : n ≤ c + k = ground (arith, b) in
      let reduced : c + k - n < n = omega arith in
      let split : c + k - n + n ≡ c + k = omega arith in
      let back : (c + k) % n ≡ c + k - n =
        ap (λ x. x % n) (sym split) ∙ (add-mod_right (c + k - n) n ∙ mod-eq_of_lt reduced) in
      absurd (omega arith)
]

-- A switch leaves every thread that can run able to.
can_run-switch_to :
    (s : Sched) (next j : ℕ)
    → IsSched s
    → next < s.count
    → next ≢ s.current
    → can_run (thread s j).state ≡ true
    → can_run (thread (switch_to s next) j).state ≡ true
can_run-switch_to s next j v h ne r =
    let state =
      state-switch_to s next j (omega (arith, v.size, v.at_most))
        (omega (arith, v.size, v.at_most, v.current_in)) ne in
    rw state (
      if_lem (λ t. can_run t ≡ true) (j == next) running
        (if j == s.current then ready else (thread s j).state) (λ e. refl)
        (λ e.
          if_lem (λ t. can_run t ≡ true) (j == s.current) ready (thread s j).state (λ d. refl)
            (λ d. r)))

-- The turn that is taken when a thread at distance `d` can run: a switch to a thread that is nearer
-- to it, or to it.
turn :
    (s : Sched) (r : Option ℕ) (d : ℕ)
    → IsSched s
    → Chosen s 1 s.count r
    → 1 ≤ d
    → d < s.count
    → can_run (thread s ((s.current + d) % s.count)).state ≡ true
    → (k : ℕ) × (1 ≤ k)
      × (k ≤ d)
      × ((s.current + k) % s.count < s.count)
      × ((s.current + k) % s.count ≢ s.current)
      × ((take_turn s r).1 ≡ switch_to s ((s.current + k) % s.count))
unfolding take_turn
turn s none d v c lo hi runs = absurd (ground (arith, c d lo (omega arith), runs))
turn s (some idx) d v (k, a, b, e, y, before) lo hi runs =
    let near : k ≤ d = elim (Bool-cases (ltb d k)) [
      | inl t ↦ absurd (ground (arith, before d lo (ground (arith, t)), runs))
      | inr t ↦ ground (arith, t)
    ] in
    let moves : (s.current + k) % s.count ≢ s.current =
      round_moves s.current k s.count v.current_in a (omega arith) in
    let current_in = v.current_in in
    let below : (s.current + k) % s.count < s.count = omega arith in
    (k, a, near, below, moves, rw (e, ne→== ((s.current + k) % s.count) s.current moves) refl)

count-switch_to : (s : Sched) (next : ℕ) → (switch_to s next).count ≡ s.count
unfolding switch_to
count-switch_to s next = refl

-- A switch to the thread at distance `k` takes `k` off the distance to a thread behind it.
distance-switch_to :
    (s : Sched) (k d : ℕ)
    → k ≤ d
    → (s.current + d) % s.count
      ≡ ((switch_to s ((s.current + k) % s.count)).current + (d - k))
        % (switch_to s ((s.current + k) % s.count)).count
unfolding switch_to
distance-switch_to s k d h =
    let split : s.current + d ≡ s.current + k + (d - k) = omega arith in
    ap (λ x. x % s.count) split ∙ sym (mod-add-mod (s.current + k) s.count (d - k))

-- A thread at distance `d` becomes current within `d` yields.
reaches :
    (bound d : ℕ) (s : Sched) (j : ℕ)
    → d ≤ bound
    → IsSched s
    → d < s.count
    → j ≡ (s.current + d) % s.count
    → can_run (thread s j).state ≡ true
    → (n : ℕ) × (n ≤ bound) × ((yields n s).current ≡ j)
unfolding yields sched_yield
reaches bound zero s j le v h e r =
    let current_in = v.current_in in
    let still : (s.current + 0) % s.count ≡ s.current =
      ap (λ x. x % s.count) (omega arith) ∙ mod-eq_of_lt current_in in
    (0, omega arith, sym (e ∙ still))
reaches zero (suc d) s j le v h e r = absurd (omega arith)
reaches (suc bound) (suc d) s j le v h e r =
    let runs : can_run (thread s ((s.current + suc d) % s.count)).state ≡ true =
      subst (λ i. can_run (thread s i).state ≡ true) e r in
    let (k, lo, hi, inside, ne, turned) =
      turn s (next_ready s) (suc d) v (next_ready_lem s) (omega arith) h runs in
    let next = (s.current + k) % s.count in
    let t = switch_to s next in
    let counted = count-switch_to s next in
    let rest = suc d - k in
    let nearer = e ∙ distance-switch_to s k (suc d) hi in
    let (n, few, there) =
      reaches bound rest t j (omega arith) (switch_to-IsSched s v next inside ne) (omega arith)
        nearer (can_run-switch_to s next j v inside ne r) in
    (suc n, omega arith, subst (λ u. (yields n u).current ≡ j) (sym turned) there)

-- The distance from the current thread to another.
distance : (c j n : ℕ) → c < n → j < n → (d : ℕ) × (d < n) × (j ≡ (c + d) % n)
distance c j n hc hj = elim (Bool-cases (ltb j c)) [
  | inl b ↦
      let behind : j < c = ground (arith, b) in
      let round : c + (n + j - c) ≡ j + n = omega arith in
      (n + j - c, omega arith, sym (ap (λ x. x % n) round ∙ (add-mod_right j n ∙ mod-eq_of_lt hj)))
  | inr b ↦
      let ahead : c ≤ j = ground (arith, b) in
      let straight : c + (j - c) ≡ j = omega arith in
      (j - c, omega arith, sym (ap (λ x. x % n) straight ∙ mod-eq_of_lt hj))
]

-- When every thread that gets the CPU yields it, and none leaves, then each thread of a well-formed
-- table that can run becomes the current one after at most 15 yields.
pub sched_yield-reaches :
    (s : Sched) (j : ℕ)
    → IsSched s
    → j < s.count
    → can_run (thread s j).state ≡ true
    → (n : ℕ) × (n ≤ 15) × ((yields n s).current ≡ j)
sched_yield-reaches s j v h r =
    let (d, near, e) = distance s.current j s.count v.current_in h in
    let at_most = v.at_most in reaches 15 d s j (omega arith) v near e r
