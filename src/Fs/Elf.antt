-- ===== src/Fs/Elf.antt =====
-- fs/elf.c: loading an executable. The file is a memory of its own, which the segments that are
-- stored are taken not to overwrite; the machine's memory maps an address to its byte.
pub mod Laws
mod Examples
use chris_os.Base.{Bool, ◌||◌, leb, ◌^◌, Option, none, some, ℕ, zero, suc, ◌+◌, ◌-◌, ◌*◌, not}
use chris_os.Base.{◌==◌, ltb, if◌then◌else◌}
use chris_os.Base.Word.{Memory, u32, le16, le32}
use chris_os.Mm.{Heap, kmalloc, kfree}
use chris_os.Sched.{Sched, sched_spawn}

unfoldable pub poke : Memory → ℕ → ℕ → Memory
poke m a b = λ i. if i == u32 a then b else m i

-- The first inner loop: `left` bytes of the file from `from` on go to `to`.
unfoldable pub copy_bytes : Memory → ℕ → ℕ → ℕ → Memory → Memory
copy_bytes file from to zero m = m
copy_bytes file from to (suc left) m =
    copy_bytes file (u32 (from + 1)) (u32 (to + 1)) left (poke m to (file from))

-- The second one: `left` zeros from `to` on.
unfoldable pub clear_bytes : ℕ → ℕ → Memory → Memory
clear_bytes to zero m = m
clear_bytes to (suc left) m = clear_bytes (u32 (to + 1)) left (poke m to 0)

-- The segment whose program header stands at `ph`.
unfoldable pub load_segment : Memory → ℕ → Memory → Memory
load_segment file ph m =
    let from = le32 file (ph + 4) in
    let to = le32 file (ph + 8) in
    let filesz = le32 file (ph + 16) in
    let memsz = le32 file (ph + 20) in
    if not (le32 file ph == 1)
    then m
    else if memsz == 0
    then m
    else clear_bytes (u32 (to + filesz)) (memsz - filesz) (copy_bytes file from to filesz m)

-- The loop over the program headers, `left` of them from number `i` on.
unfoldable pub load_segments : Memory → ℕ → ℕ → Memory → Memory
load_segments file zero i m = m
load_segments file (suc left) i m =
    load_segments file left (i + 1) (load_segment file (u32 (le32 file 28 + i * le16 file 42)) m)

pub data Loaded : Type 0 where
  too_small : Loaded
  bad_magic : Loaded
  not_32_bit : Loaded
  not_x86 : Loaded
  not_executable : Loaded
  loaded : ℕ → Memory → Loaded

unfoldable pub elf_load : Memory → ℕ → Memory → Loaded
elf_load file size m =
    if ltb size 52
    then too_small
    else if not (le32 file 0 == 0x464C457F)
    then bad_magic
    else if not (file 4 == 1)
    then not_32_bit
    else if not (le16 file 18 == 3)
    then not_x86
    else if not (le16 file 16 == 2)
    then not_executable
    else loaded (le32 file 24) (load_segments file (le16 file 44) 0 m)

abbrev pub elf_max_size : ℕ
elf_max_size = 256 * 1024

-- The threads with the heap, the machine's memory, and the entry point that the next thread of
-- `elf_thread_entry` jumps to.
pub record Exec : Type 0 where
  pub sched : Sched
  pub memory : Memory
  pub pending_entry : ℕ

-- The threads with another heap.
unfoldable pub with_heap : Exec → Heap → Exec
with_heap x h = record x {
  sched = record {
    threads = x.sched.threads;
    current = x.sched.current;
    count = x.sched.count;
    heap = h;
  };
}

-- `kfree(buf)` and the return of -1; `none` is a fault of `kfree`.
unfoldable pub give_up : ℕ → Exec → Option (Option ℕ × Exec)
unfolding with_heap
give_up buf x = elim (kfree buf x.sched.heap) [ none ↦ none | some h ↦ some (none, with_heap x h) ]

-- The thread for a program that has been loaded; `thread_entry` is `elf_thread_entry`.
unfoldable pub start_program : ℕ → ℕ → ℕ → Memory → Exec → Option (Option ℕ × Exec)
unfolding with_heap
start_program thread_entry buf entry m x = elim (kfree buf x.sched.heap) [
  | none ↦ none
  | some h ↦
      let (tid, s) = sched_spawn (with_heap x h).sched thread_entry in
      some (tid, record { sched = s; memory = m; pending_entry = entry })
]

-- What follows `elf_load`, whose every error is reported in the same way.
unfoldable pub after_load : ℕ → ℕ → Loaded → Exec → Option (Option ℕ × Exec)
unfolding give_up start_program
after_load thread_entry buf too_small x = give_up buf x
after_load thread_entry buf bad_magic x = give_up buf x
after_load thread_entry buf not_32_bit x = give_up buf x
after_load thread_entry buf not_x86 x = give_up buf x
after_load thread_entry buf not_executable x = give_up buf x
after_load thread_entry buf (loaded entry m) x = start_program thread_entry buf entry m x

-- What `fat32_read_file` does with the name of a file: its result, the size that the directory
-- gives, how many bytes it stores in the buffer, which are whole clusters, and the memory there. The
-- buffer that it takes for the directory is given back and is left out.
pub record FileRead : Type 0 where
  pub size : ℕ
  pub stored : ℕ
  pub bytes : Memory

-- `sz <= 0`, for the 32 bits of the size.
unfoldable pub no_size : ℕ → Bool
no_size size = size == 0 || leb (2 ^ 31) size

-- What follows `fat32_read_file`; without a file it stores nothing and its result is 0. `none` where
-- it stores more than the buffer holds, over what stands behind it in the heap.
unfoldable pub after_read : ℕ → ℕ → Option FileRead → Exec → Option (Option ℕ × Exec)
unfolding after_load no_size
after_read thread_entry buf none x = give_up buf x
after_read thread_entry buf (some f) x =
    if ltb elf_max_size f.stored
    then none
    else if no_size f.size
    then give_up buf x
    else after_load thread_entry buf (elf_load f.bytes f.size x.memory) x

-- The file is what `fat32_read_file` makes of the name. The result is the number of the thread, or
-- `none` for -1; without a result, the heap is overrun or `kfree` faults.
unfoldable pub elf_exec : ℕ → Option FileRead → Exec → Option (Option ℕ × Exec)
unfolding after_read with_heap
elf_exec thread_entry file x = elim (kmalloc elf_max_size x.sched.heap) [
  | none ↦ some (none, x)
  | some (buf, h) ↦ after_read thread_entry buf file (with_heap x h)
]
