-- ===== src/Kernel/Examples.antt =====
-- The witnesses of the parts of the kernel that print and that handle interrupts.
use chris_os.Base.{refl, All, some, none, ◌∷◌, replicate, ◌≢◌, ◌⊎◌, ℕ, ◌+◌, ◌*◌, ◌%◌, ◌≡◌}
use chris_os.Kernel.Syscall.{Calls, SockTable, open_call, minus_one}
use chris_os.Kernel.Syscall.Laws.{IsOpened, open_call-IsOpened}

abbrev stub : ℕ → ℕ → ℕ
stub base i = base + i % 16 * 32

abbrev opening : Calls ℕ
opening = record {
  memory = λ k i. 0;
  store_ip = λ p ip k. k;
  putchar = λ c k. k;
  unknown_call = λ n k. k;
  sched_exit = λ k. k;
  sched_yield = λ k. k;
  open_sock = λ k. (some 3, k);
  connect_sock = λ s ip port k. (0, k);
  send_sock = λ s p len k. (len, k);
  recv_sock = λ s p len k. (0, k);
  close_sock = λ s k. k + 1;
  resolve = λ p k. (record { b0 = 10; b1 = 0; b2 = 2; b3 = 3 }, k);
}

abbrev two_open : SockTable
two_open = some 1 ∷ none ∷ some 2 ∷ replicate 5 none

open_call-IsOpened_example :
    IsOpened opening two_open 3 (open_call opening two_open 0)
    ⊎ (((open_call opening two_open 0).eax ≡ minus_one)
        × ((open_call opening two_open 0).sock_table ≡ two_open)
        × All (λ p. p ≢ none) two_open)
open_call-IsOpened_example = open_call-IsOpened opening two_open 3 0 refl refl
