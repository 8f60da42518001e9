-- ===== src/Fs/Elf/Laws.antt =====
-- elf_exec of fs/elf.c uses its buffer without a trace, for a file that fits into it.
use chris_os.Base.{Bool, false, ◌||◌, leb, ltb, ◌^◌, ◌==◌, if◌then◌else◌, ℕ}
use chris_os.Base.{Option, none, some}
use chris_os.Fs.Elf.{FileRead, Exec}
use chris_os.Fs.Elf.{elf_load, Loaded, loaded, too_small}
use chris_os.Fs.Elf.{bad_magic, not_32_bit, not_x86, not_executable}
use chris_os.Sched.{sched_spawn}

-- A thread for the program that has been loaded, if one has.
unfoldable pub run_loaded : ℕ → Loaded → Exec → Option ℕ × Exec
run_loaded thread_entry too_small x = (none, x)
run_loaded thread_entry bad_magic x = (none, x)
run_loaded thread_entry not_32_bit x = (none, x)
run_loaded thread_entry not_x86 x = (none, x)
run_loaded thread_entry not_executable x = (none, x)
run_loaded thread_entry (loaded entry m) x =
    let (tid, s) = sched_spawn x.sched thread_entry in
    (tid, record { sched = s; memory = m; pending_entry = entry })

-- The execution of a program without a buffer: the file is loaded from where it is.
unfoldable pub run_file : ℕ → Option FileRead → Exec → Option ℕ × Exec
unfolding run_loaded
run_file thread_entry none x = (none, x)
run_file thread_entry (some f) x =
    if f.size == 0 || leb (2 ^ 31) f.size
    then (none, x)
    else run_loaded thread_entry (elf_load f.bytes f.size x.memory) x

-- The buffer of 256 KiB does not hold what is stored of the file.
abbrev pub overruns : Option FileRead → Bool
overruns none = false
overruns (some f) = ltb 262144 f.stored
