-- ===== src/Shell/Execute.antt =====
-- The commands of shell/shell.c, and what a key does.
--
-- The loop of `wget` reads until the reply has no more bytes, which the peer decides, so that it is
-- on fuel: a result of `none` says only that the fuel was too little.
pub mod Laws
use chris_os.Base.{ℕ, zero, suc, ◌+◌, ◌-◌, ◌*◌, ◌/◌, ◌%◌, ◌^◌, ◌≤◌, ◌<◌, min, bit_and, ◌≡◌}
use chris_os.Base.{refl, sym, ap, ap₂, ◌∙◌, ◌≢◌, ◌↔◌, ◌⊎◌, inl, inr, Bool, true, false, not}
use chris_os.Base.{◌&&◌, ◌||◌, Option, none, some, List, [], ◌∷◌, ◌++◌, map, arith, ◌==◌, ltb}
use chris_os.Base.{leb, if◌then◌else◌, eq→==, ne→==, ==→eq, lt→ltb, le→ltb, Bool-cases}
use chris_os.Base.{Option-cases, length, get_or, set, take, drop, replicate, length-append}
use chris_os.Base.{length-set, length-replicate, get_or-set_self, get_or-set_ne, All}
use chris_os.Base.Int.{pos, int32}
use chris_os.Base.Text.{codes}
use Prim.Native.String.{String}
use chris_os.Kernel.Terminal.{TermCall, putchar, writestring, writetext, setcolor, make_color}
use chris_os.Kernel.Terminal.{Terminal, terminal_putentryat}
use chris_os.Kernel.Text.{same_string, same_prefix, itoa}
use chris_os.Net.Types.{Ip, Mac}
use chris_os.Shell.Address.{print_ip, print_mac, hex_byte, is_ip, parse_ip}
use chris_os.Shell.Command.{Command, command_of, help, install, clear, version, echo, meminfo}
use chris_os.Shell.Command.{uptime, reboot, ls, cat, disk, ui, exec, ifconfig, dhcp, ping}
use chris_os.Shell.Command.{nslookup, wget, unknown}
use chris_os.Shell.Line.{Line, c_string, type_char, erase_char, remember, clear_line}
use chris_os.Shell.Services.{Services}
use chris_os.Ui.Shapes.{rgb, color_win_bg, color_win_text, color_prompt, color_term_fg}

-- The address 0.0.0.0, by which `dns_lookup` says that there is none.
unfoldable pub is_zero : Ip → Bool
is_zero ip = ip.b0 == 0 && (ip.b1 == 0 && (ip.b2 == 0 && ip.b3 == 0))

module _ {K : Type 0} (services : Services K) where
  -- Calls of the terminal, one after the other.
  unfoldable pub say : List TermCall → K → K
  say [] k = k
  say (call ∷ calls) k = say calls (services.term call k)

  unfoldable pub set_fg : ℕ → ℕ → K → K
  set_fg color attr k =
      if services.fb_active k
      then services.gterm_cur_fg color k
      else services.term (setcolor attr) k

  -- The prompt, in green, and light grey for what is typed.
  unfoldable pub shell_init : K → K
  unfolding set_fg
  shell_init k =
      let k = set_fg color_prompt (make_color 2 0) k in
      let k = services.term (writestring "chris os> ") k in set_fg color_term_fg (make_color 7 0) k

  unfoldable pub run_meminfo : K → K
  unfolding say
  run_meminfo k =
      let k = services.term (writestring "used: ") k in
      let k = services.term (writetext (itoa (int32 (services.mm_used k)))) k in
      let k = services.term (writestring " bytes\nfree: ") k in
      let k = services.term (writetext (itoa (int32 (services.mm_free k)))) k in
      services.term (writestring " bytes\n") k

  unfoldable pub run_cat : List ℕ → K → K
  unfolding say
  run_cat name k =
      let (buf, k) = services.kmalloc 4096 k in
      let (bytes, k) = services.fat32_read_file name buf k in
      let calls =
        if length bytes == 0
        then writestring "file not found\n" ∷ []
        else map putchar bytes ++ (putchar 10 ∷ []) in
      services.kfree buf (say calls k)

  unfoldable pub run_disk : K → K
  unfolding say
  run_disk k =
      let (buf, k) = services.kmalloc 512 k in
      let (sector, k) = services.ata_read_sector 0 buf k in
      let calls : List TermCall = elim sector [
        | none ↦ writestring "disk read failed\n" ∷ []
        | some bytes ↦
            writestring "boot sig: "
            ∷ writetext (hex_byte (get_or bytes 510 0))
            ∷ putchar b' '
            ∷ writetext (hex_byte (get_or bytes 511 0))
            ∷ putchar 10
            ∷ []
      ] in
      services.kfree buf (say calls k)

  unfoldable pub run_ui : K → K
  unfolding shell_init
  run_ui k =
      let v = services.vesa_init k in
      let drawn =
        let k = services.draw_taskbar (services.draw_desktop v) in
        let k = services.draw_window 100 60 400 200 "About ChrisOS" k in
        let k =
          services.draw_string 108 96 "ChrisOS v0.7 - VESA Graphical Mode" color_win_text
            color_win_bg k in
        let k =
          services.draw_string 108 114 "1024 x 768 x 32bpp linear framebuffer" color_win_text
            color_win_bg k in
        let k =
          services.draw_string 108 132 "RTL8139 network stack" color_win_text color_win_bg k in
        shell_init (services.gterm_init k) in
      if services.fb_active k
      then services.term (writestring "ui: already in graphical mode\n") k
      else if services.fb_active v
      then drawn
      else services.term (writestring "ui: VESA not available\n") v

  unfoldable pub run_ifconfig : K → K
  unfolding say
  run_ifconfig k =
      say
        (writestring "eth0  MAC: "
          ∷ writetext (print_mac (services.eth_get_mac k))
          ∷ writestring "\n      IP:  "
          ∷ writetext (print_ip (services.eth_get_ip k))
          ∷ putchar 10
          ∷ [])
        k

  unfoldable pub ping_address : Ip → K → K
  unfolding say
  ping_address ip k =
      services.icmp_ping ip
        (say (writestring "PING " ∷ writetext (print_ip ip) ∷ writestring " 56 bytes\n" ∷ []) k)

  unfoldable pub run_ping : List ℕ → K → K
  unfolding ping_address is_zero
  run_ping target k =
      if is_ip target
      then ping_address (parse_ip target) k
      else let said =
          say (writestring "resolving " ∷ writetext target ∷ writestring "...\n" ∷ []) k in
        let (ip, k) = services.dns_lookup target said in
        if is_zero ip
        then services.term (writestring "ping: host not found\n") k
        else ping_address ip k

  unfoldable pub run_nslookup : List ℕ → K → K
  unfolding say is_zero
  run_nslookup host k =
      let said = say (writestring "resolving " ∷ writetext host ∷ writestring "...\n" ∷ []) k in
      let (ip, k) = services.dns_lookup host said in
      let k = say (writetext host ∷ writestring " -> " ∷ []) k in
      if is_zero ip
      then services.term (writestring "not found\n") k
      else say (writetext (print_ip ip) ∷ putchar 10 ∷ []) k

  -- The loop over the reply, with the number of bytes so far.
  unfoldable pub read_all : ℕ → ℕ → ℕ → K → Option (ℕ × K)
  unfolding say
  read_all zero req total k = none
  read_all (suc fuel) req total k =
      let (bytes, k) = services.http_read req 512 k in
      elim (length bytes == 0) [
        | true ↦ some (total, k)
        | false ↦ read_all fuel req (total + length bytes) (say (map putchar bytes) k)
      ]

  unfoldable pub run_wget : ℕ → List ℕ → K → Option K
  unfolding read_all
  run_wget fuel url k =
      let said = say (writestring "fetching " ∷ writetext url ∷ putchar 10 ∷ []) k in
      let (req, k) = services.http_get url said in
      elim req [
        | none ↦ some (services.term (writestring "wget: failed\n") k)
        | some r ↦
            let (buf, k) = services.kmalloc 512 k in
            elim (read_all fuel r 0 k) [
              | none ↦ none
              | some (total, k) ↦
                  let k = services.http_close r (services.kfree buf k) in
                  some (
                    say
                      (putchar 10
                        ∷ writetext (itoa (int32 total))
                        ∷ writestring " bytes received\n"
                        ∷ [])
                      k)
            ]
      ]

  -- A command that the network card is needed for.
  unfoldable pub with_card : String → K → Option K → Option K
  with_card text k run =
      if services.eth_ready k then run else some (services.term (writestring text) k)

  unfoldable pub run_command : ℕ → Command → K → Option K
  unfolding say run_meminfo run_cat run_disk run_ui run_ifconfig run_ping run_nslookup run_wget
      with_card
  run_command fuel help k = some (
      say
        (writestring "commands:\n"
          ∷ writestring "  help, clear, echo, version, meminfo, uptime, reboot\n"
          ∷ writestring "  ls, cat, touch, rm, write, exec\n"
          ∷ writestring "  disk, ui, install\n"
          ∷ writestring "  ping <host|ip>, ifconfig, nslookup <host>, wget <url>, dhcp\n"
          ∷ [])
        k)
  run_command fuel install k = some (services.installer_start k)
  run_command fuel clear k = some (services.terminal_initialize k)
  run_command fuel version k = some (services.term (writestring "ChrisOS v0.7 (net build)\n") k)
  run_command fuel (echo text) k = some (say (writetext text ∷ putchar 10 ∷ []) k)
  run_command fuel meminfo k = some (run_meminfo k)
  run_command fuel uptime k = some (
      say
        (writestring "uptime: "
          ∷ writetext (itoa (int32 (services.get_ticks k / 18)))
          ∷ writestring " seconds\n"
          ∷ [])
        k)
  run_command fuel reboot k =
      some (services.reboot (services.term (writestring "rebooting...\n") k))
  run_command fuel ls k = some (services.fat32_ls k)
  run_command fuel (cat name) k = some (run_cat name k)
  run_command fuel disk k = some (run_disk k)
  run_command fuel ui k = some (run_ui k)
  run_command fuel (exec name) k = some (services.elf_exec name k)
  run_command fuel ifconfig k = with_card "eth0: no NIC\n" k (some (run_ifconfig k))
  run_command fuel dhcp k =
      with_card "dhcp: no NIC\n" k
        (some (services.dhcp_request (services.term (writestring "dhcp: sending discover...\n") k)))
  run_command fuel (ping target) k = with_card "ping: no NIC\n" k (some (run_ping target k))
  run_command fuel (nslookup host) k = with_card "nslookup: no NIC\n" k (some (run_nslookup host k))
  run_command fuel (wget url) k = with_card "wget: no NIC\n" k (run_wget fuel url k)
  run_command fuel (unknown cmd) k =
      some (say (writestring "unknown command: " ∷ writetext cmd ∷ putchar 10 ∷ []) k)

  -- The line and the kernel after a command; an empty line is not one.
  unfoldable pub shell_execute : ℕ → Line → K → Option (Line × K)
  unfolding run_command
  shell_execute fuel l k = elim (l.input_len == 0) [
    | true ↦ some (l, k)
    | false ↦ elim (run_command fuel (command_of (c_string l.input)) k) [
      | none ↦ none
      | some k ↦ some (remember l, k)
    ]
  ]

  -- The cell to the left of the cursor is blanked.
  unfoldable pub erase_cell : Terminal → Terminal
  erase_cell t =
      if ltb 0 t.column
      then terminal_putentryat b' ' t.color (t.column - 1) t.row
          (record t { column = t.column - 1 })
      else t

  -- A key. `l.input_len` is not changed by a command, so that it is the length in front of it that is
  -- tested.
  unfoldable pub shell_process_char : ℕ → ℕ → Line → K → Option (Line × K)
  unfolding shell_execute shell_init erase_cell
  shell_process_char fuel c l k = elim (services.installer_is_active k) [
    | true ↦ some (l, services.installer_handle_char c k)
    | false ↦ elim (c == 10) [
      | true ↦ elim (shell_execute fuel l (services.term (putchar 10) k)) [
        | none ↦ none
        | some (l, k) ↦ some (clear_line l, shell_init k)
      ]
      | false ↦ elim (c == 8) [
        | true ↦
            let echoed =
              if not (ltb 0 l.input_len)
              then k
              else if services.fb_active k
              then services.gterm_putchar 8 k
              else services.set_terminal (erase_cell (services.get_terminal k)) k in
            some (erase_char l, echoed)
        | false ↦
            let echoed = if ltb l.input_len 255 then services.term (putchar c) k else k in
            some (type_char c l, echoed)
      ]
    ]
  ]
