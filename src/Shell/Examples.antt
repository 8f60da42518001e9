-- ===== src/Shell/Examples.antt =====
-- The witnesses of the shell, on a kernel whose state is what has been printed.
use chris_os.Base.{◌≡◌, refl, true, false, none, some, List, [], ◌∷◌, ◌++◌, arith, replicate}
use chris_os.Base.Text.{codes}
use chris_os.Kernel.Terminal.{writestring, writetext, TermCall, Terminal}
use chris_os.Kernel.Text.{itoa, digits_from}
use chris_os.Net.Types.{Ip}
use chris_os.Shell.Address.{parse_ip, print_ip}
use chris_os.Shell.Address.Laws.{IsIp, parse_ip-print_ip}
use chris_os.Shell.Execute.{shell_execute}
use chris_os.Shell.Execute.Laws.{shell_execute-ping}
use chris_os.Shell.Line.{Line, remember, clear_line, shell_history_up, type_char}
use chris_os.Shell.Line.Invariant.{typed, up, done, step, Steps-IsLine}
use chris_os.Shell.Line.Laws.{IsLine, text, last, shell_history_up-remember}
use chris_os.Shell.Services.{Services}

abbrev blank : Terminal
blank = record { row = 0; column = 0; color = 7; buffer = [] }

abbrev printing : Services (List TermCall)
printing = record {
  term = λ call k. call ∷ k;
  get_terminal = λ k. blank;
  set_terminal = λ t k. k;
  terminal_initialize = λ k. [];
  fb_active = λ k. false;
  gterm_cur_fg = λ color k. k;
  gterm_putchar = λ c k. k;
  gterm_init = λ k. k;
  vesa_init = λ k. k;
  draw_desktop = λ k. k;
  draw_taskbar = λ k. k;
  draw_window = λ x y w h title k. k;
  draw_string = λ x y s fg bg k. k;
  kmalloc = λ size k. (0x200000, k);
  kfree = λ p k. k;
  mm_used = λ k. 0;
  mm_free = λ k. 0x100000;
  get_ticks = λ k. 0;
  reboot = λ k. k;
  installer_is_active = λ k. false;
  installer_start = λ k. k;
  installer_handle_char = λ c k. k;
  fat32_ls = λ k. k;
  fat32_read_file = λ name buf k. ([], k);
  elf_exec = λ name k. k;
  ata_read_sector = λ lba buf k. (none, k);
  eth_ready = λ k. true;
  eth_get_mac = λ k. record { m0 = 0; m1 = 0; m2 = 0; m3 = 0; m4 = 0; m5 = 0 };
  eth_get_ip = λ k. record { b0 = 0; b1 = 0; b2 = 0; b3 = 0 };
  dhcp_request = λ k. k;
  dns_lookup = λ host k. (record { b0 = 0; b1 = 0; b2 = 0; b3 = 0 }, k);
  icmp_ping = λ ip k. k;
  http_get = λ url k. (none, k);
  http_read = λ req max k. ([], k);
  http_close = λ req k. k;
}

abbrev gateway : Ip
gateway = record { b0 = 10; b1 = 0; b2 = 2; b3 = 2 }

gateway-IsIp : IsIp gateway
gateway-IsIp = record {
  first = omega arith;
  second = omega arith;
  third = omega arith;
  fourth = omega arith;
}

parse_ip-print_ip_example : parse_ip (print_ip gateway) ≡ gateway
parse_ip-print_ip_example = parse_ip-print_ip gateway gateway-IsIp

-- The line `ping 10.0.2.2`.
abbrev ping_line : Line
ping_line = record {
  input = codes "ping 10.0.2.2" ++ replicate 243 0;
  input_len = 13;
  history = replicate 256 0;
  history_len = 0;
  cursor_pos = 0;
}

ping_line-IsLine : IsLine ping_line
unfolding text last
ping_line-IsLine = record {
  input_size_in = refl;
  history_size_in = refl;
  input_in = omega arith;
  history_in = omega arith;
  ends = refl;
  no_zero = search arith;
  last_no_zero = tt;
}

reads_ping : text ping_line ≡ codes "ping " ++ print_ip gateway
unfolding text print_ip itoa digits_from
reads_ping = refl

shell_execute-ping_example :
    (l' : Line) × (shell_execute printing 1 ping_line []
      ≡ some
          (l', writestring " 56 bytes\n" ∷ writetext (print_ip gateway) ∷ writestring "PING " ∷ []))
    × (text (shell_history_up (clear_line l')) ≡ codes "ping " ++ print_ip gateway)
shell_execute-ping_example =
    shell_execute-ping printing 1 ping_line [] gateway ping_line-IsLine (omega arith) reads_ping
      gateway-IsIp refl

shell_history_up-remember_example :
    text (shell_history_up (clear_line (remember ping_line))) ≡ text ping_line
shell_history_up-remember_example =
    shell_history_up-remember ping_line ping_line-IsLine (omega arith)

Steps-IsLine_example : IsLine (shell_history_up (type_char b'x' ping_line))
Steps-IsLine_example =
    Steps-IsLine
      (step (typed ping_line b'x' (ground arith))
        (step (up (type_char b'x' ping_line)) (done (shell_history_up (type_char b'x' ping_line)))))
      ping_line-IsLine
