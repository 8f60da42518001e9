-- ===== src/Kernel/Panic/Examples.antt =====
-- The panic of kernel/panic.c on the screen of a kernel that has just started.
use chris_os.Base.{◌≡◌, [], replicate}
use chris_os.Kernel.Panic.{Console, Registers, paint_panic_screen, panic_color}
use chris_os.Kernel.Panic.Laws.{paint_panic_screen_lem}
use chris_os.Kernel.Terminal.{Terminal, terminal_initialize, vga_entry}
use chris_os.Kernel.Terminal.Laws.{terminal_initialize-IsTerminal}

abbrev off : Terminal
off = record { row = 0; column = 0; color = 0; buffer = [] }

abbrev fresh_console : Console
fresh_console = record { screen = terminal_initialize off; serial = [] }

abbrev page_fault : Registers
page_fault = record {
  edi = 0;
  esi = 0;
  ebp = 0;
  esp = 0x9000;
  ebx = 0;
  edx = 0;
  ecx = 0;
  eax = 0xB8000;
  int_no = 14;
  err_code = 2;
  eip = 0x100000;
  cs = 8;
  eflags = 0x202;
}

paint_panic_screen_lem_example : paint_panic_screen (terminal_initialize off) ≡ record {
  row = 1;
  column = 0;
  color = panic_color;
  buffer = replicate 2000 (vga_entry 32 panic_color);
}
paint_panic_screen_lem_example =
    paint_panic_screen_lem (terminal_initialize off) (terminal_initialize-IsTerminal off)
