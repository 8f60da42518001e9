-- ===== src/Kernel/Syscall.antt =====
-- kernel/syscall.c: the system calls and the table of the sockets that programs have. A socket is a
-- number, and an empty place of the table is `none`.
pub mod Laws
use chris_os.Base.{replicate, ℕ, zero, suc, ◌+◌, ◌-◌, ◌*◌, ◌/◌, ◌%◌, ◌^◌, ◌≤◌, ◌<◌, min}
use chris_os.Base.{bit_and, ◌≡◌, refl, sym, ap, ap₂, ◌∙◌, ◌≢◌, ◌↔◌, ◌⊎◌, inl, inr, Bool, true}
use chris_os.Base.{false, not, ◌&&◌, ◌||◌, Option, none, some, List, [], ◌∷◌, ◌++◌, map, arith}
use chris_os.Base.{◌==◌, ltb, leb, if◌then◌else◌, eq→==, ne→==, ==→eq, lt→ltb, le→ltb}
use chris_os.Base.{Bool-cases, Option-cases, length, get_or, set, take, drop, length-append}
use chris_os.Base.{length-set, length-replicate, get_or-set_self, get_or-set_ne, All}
use chris_os.Base.Word.{u16, u32}
use chris_os.Kernel.Interrupts.{Idt, idt_set_entry}
use chris_os.Net.Types.{Ip}

abbrev pub SockTable : Type 0
SockTable = List (Option ℕ)

abbrev pub sock_count : ℕ
sock_count = 8

unfoldable pub get_sock : SockTable → ℕ → Option ℕ
get_sock table id = if leb sock_count id then none else get_or table id none

-- The loop of `alloc_sock` over the places: the first empty one gets the socket.
unfoldable pub alloc_sock : ℕ → SockTable → Option (ℕ × SockTable)
alloc_sock s [] = none
alloc_sock s (none ∷ table) = some (0, some s ∷ table)
alloc_sock s (some t ∷ table) = elim (alloc_sock s table) [
  | none ↦ none
  | some (i, rest) ↦ some (i + 1, some t ∷ rest)
]

-- The functions of the other components that the calls come to. The results of the sockets' functions
-- are 32-bit patterns.
pub record Calls (K : Type 0) : Type 0 where
  pub memory : K → ℕ → ℕ
  pub store_ip : ℕ → Ip → K → K
  pub putchar : ℕ → K → K
  pub unknown_call : ℕ → K → K
  pub sched_exit : K → K
  pub sched_yield : K → K
  pub open_sock : K → Option ℕ × K
  pub connect_sock : ℕ → Ip → ℕ → K → ℕ × K
  pub send_sock : ℕ → ℕ → ℕ → K → ℕ × K
  pub recv_sock : ℕ → ℕ → ℕ → K → ℕ × K
  pub close_sock : ℕ → K → K
  pub resolve : ℕ → K → Ip × K

pub record Registers : Type 0 where
  pub eax : ℕ
  pub ebx : ℕ
  pub ecx : ℕ
  pub edx : ℕ

-- What a system call leaves: the new `eax`, the table and the rest of the kernel.
pub record Returned (K : Type 0) : Type 0 where
  pub eax : ℕ
  pub sock_table : SockTable
  pub kernel : K

-- `(uint32_t)-1`
abbrev pub minus_one : ℕ
minus_one = 2 ^ 32 - 1

pub data Number : Type 0 where
  sys_exit sys_write sys_read sys_getpid sys_yield : Number
  sys_net_socket sys_net_connect sys_net_send sys_net_recv : Number
  sys_net_close sys_net_resolve : Number
  sys_unknown : Number

-- The cases of the switch.
unfoldable pub number_of : ℕ → Number
number_of n =
    if n == 0
    then sys_exit
    else if n == 1
    then sys_write
    else if n == 2
    then sys_read
    else if n == 3
    then sys_getpid
    else if n == 4
    then sys_yield
    else if n == 50
    then sys_net_socket
    else if n == 51
    then sys_net_connect
    else if n == 52
    then sys_net_send
    else if n == 53
    then sys_net_recv
    else if n == 54
    then sys_net_close
    else if n == 55
    then sys_net_resolve
    else sys_unknown

module _ {K : Type 0} (calls : Calls K) where
  -- The loop of SYS_WRITE, with `left` characters to go from the address `buf + i` on.
  unfoldable pub write_chars : ℕ → ℕ → ℕ → K → K
  write_chars buf zero i k = k
  write_chars buf (suc left) i k =
      write_chars buf left (i + 1) (calls.putchar (calls.memory k (u32 (buf + i))) k)

  -- SYS_NET_SOCKET: the number of the place that the socket has got.
  unfoldable pub open_call : SockTable → K → Returned K
  unfolding alloc_sock
  open_call table k =
      let (opened, k) = calls.open_sock k in
      elim opened [
        | none ↦ record { eax = minus_one; sock_table = table; kernel = k }
        | some s ↦ elim (alloc_sock s table) [
          | none ↦ record { eax = minus_one; sock_table = table; kernel = k }
          | some (id, table) ↦ record { eax = id; sock_table = table; kernel = k }
        ]
      ]

  -- A call that is for the socket at a place of the table, if there is one.
  unfoldable pub with_sock : SockTable → ℕ → K → (ℕ → ℕ × K) → Returned K
  unfolding get_sock
  with_sock table id k f = elim (get_sock table id) [
    | none ↦ record { eax = minus_one; sock_table = table; kernel = k }
    | some s ↦ let (eax, k) = f s in record { eax = eax; sock_table = table; kernel = k }
  ]

  -- SYS_NET_CLOSE, which reports 0 whether there is a socket or not.
  unfoldable pub close_call : SockTable → ℕ → K → Returned K
  unfolding get_sock
  close_call table id k = elim (get_sock table id) [
    | none ↦ record { eax = 0; sock_table = table; kernel = k }
    | some s ↦ record { eax = 0; sock_table = set table id none; kernel = calls.close_sock s k }
  ]

  -- The address whose four bytes stand at a place in memory.
  unfoldable pub ip_at : K → ℕ → Ip
  ip_at k p = record {
    b0 = calls.memory k p;
    b1 = calls.memory k (u32 (p + 1));
    b2 = calls.memory k (u32 (p + 2));
    b3 = calls.memory k (u32 (p + 3));
  }

  unfoldable pub dispatch_call : Number → Registers → SockTable → K → Returned K
  unfolding write_chars open_call with_sock close_call ip_at
  dispatch_call sys_exit r table k = record {
    eax = r.eax;
    sock_table = table;
    kernel = calls.sched_exit k;
  }
  dispatch_call sys_write r table k = record {
    eax = r.ecx;
    sock_table = table;
    kernel = write_chars r.ebx r.ecx 0 k;
  }
  dispatch_call sys_read r table k = record { eax = 0; sock_table = table; kernel = k }
  dispatch_call sys_getpid r table k = record { eax = 0; sock_table = table; kernel = k }
  dispatch_call sys_yield r table k = record {
    eax = r.eax;
    sock_table = table;
    kernel = calls.sched_yield k;
  }
  dispatch_call sys_net_socket r table k = open_call table k
  dispatch_call sys_net_connect r table k =
      with_sock table r.ebx k (λ s. calls.connect_sock s (ip_at k r.ecx) (u16 r.edx) k)
  dispatch_call sys_net_send r table k =
      with_sock table r.ebx k (λ s. calls.send_sock s r.ecx (u16 r.edx) k)
  dispatch_call sys_net_recv r table k =
      with_sock table r.ebx k (λ s. calls.recv_sock s r.ecx (u16 r.edx) k)
  dispatch_call sys_net_close r table k = close_call table r.ebx k
  dispatch_call sys_net_resolve r table k =
      let (ip, k) = calls.resolve r.ebx k in
      record { eax = 0; sock_table = table; kernel = calls.store_ip r.ecx ip k }
  dispatch_call sys_unknown r table k = record {
    eax = minus_one;
    sock_table = table;
    kernel = calls.unknown_call r.eax k;
  }

  unfoldable pub syscall_handler : Registers → SockTable → K → Returned K
  unfolding dispatch_call
  syscall_handler r table k = dispatch_call (number_of r.eax) r table k

-- The empty table, and the gate that programs may call; the entry point is a label of the assembly
-- code.
unfoldable pub syscall_init : ℕ → Idt → SockTable × Idt
unfolding idt_set_entry
syscall_init syscall_entry idt =
    (replicate sock_count none, idt_set_entry 0x80 syscall_entry 0x08 0xee idt)
