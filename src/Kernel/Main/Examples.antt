-- ===== src/Kernel/Main/Examples.antt =====
-- The text on the mouse of kernel/kernel.c for a movement to the left.
use chris_os.Base.{◌+◌, ◌≤◌, length, arith}
use chris_os.Base.Int.{pos, negsuc}
use chris_os.Kernel.Main.{debug_text}
use chris_os.Kernel.Main.Laws.{debug_text-fits}

debug_text-fits_example :
    length (debug_text (pos 512) (pos 384) (pos 1) (negsuc 2) (pos 0)) + 1 ≤ 64
debug_text-fits_example =
    debug_text-fits (pos 512) (pos 384) 1 (negsuc 2) (pos 0) (omega arith) (omega arith)
      (omega arith) (omega arith) (omega arith)
