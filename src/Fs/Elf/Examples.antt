-- ===== src/Fs/Elf/Examples.antt =====
-- The witness of the program loader.
use chris_os.Base.{[], ◌∷◌, get_or, replicate}
use chris_os.Base.Word.{Memory}
use chris_os.Fs.Elf.{FileRead, Exec}
use chris_os.Mm.{mm_init}
use chris_os.Sched.{no_thread}

-- The header of an executable without segments, which starts at 0x40.
abbrev program : Memory
program = λ i.
    get_or
      (0x7f ∷ 0x45 ∷ 0x4c ∷ 0x46 ∷ 1 ∷ 1 ∷ 1 ∷ 0 ∷ 0 ∷ 0 ∷ 0 ∷ 0 ∷ 0 ∷ 0 ∷ 0 ∷ 0 ∷ 2 ∷ 0 ∷ 3 ∷ 0 ∷ 1
        ∷ 0 ∷ 0 ∷ 0 ∷ 0x40 ∷ [])
      i 0

abbrev idle_machine : Exec
idle_machine = record {
  sched = record { threads = replicate 16 no_thread; current = 0; count = 1; heap = mm_init };
  memory = λ i. 0;
  pending_entry = 0;
}

-- It is stored as one cluster of 4096 bytes.
abbrev program_file : FileRead
program_file = record { size = 52; stored = 4096; bytes = program }
