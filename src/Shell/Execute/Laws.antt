-- ===== src/Shell/Execute/Laws.antt =====
-- What the commands of shell/shell.c come to.
use chris_os.Base.{ℕ, zero, suc, ◌+◌, ◌<◌, ◌≡◌, refl, ap, ◌∙◌, ◌≢◌, true, none, some, List}
use chris_os.Base.{◌++◌, map, arith, eq→==, ne→==, length}
use chris_os.Base.Text.{codes}
use chris_os.Kernel.Terminal.{putchar, writestring, writetext}
use chris_os.Kernel.Text.{same_string, same_prefix}
use chris_os.Net.Types.{Ip}
use chris_os.Shell.Address.{print_ip}
use chris_os.Shell.Address.Laws.{IsIp, parse_ip-print_ip, is_ip-print_ip}
use chris_os.Shell.Command.{ping, command_of}
use chris_os.Shell.Execute.{say, run_command, run_ping, ping_address, with_card, read_all}
use chris_os.Shell.Execute.{shell_execute}
use chris_os.Shell.Line.{clear_line, shell_history_up, Line, c_string, remember}
use chris_os.Shell.Line.Laws.{shell_history_up-remember, IsLine, text, c_string-text}
use chris_os.Shell.Services.{Services}

-- No command in front of `ping ` in the chain begins like it.
command_of-ping : (s : List ℕ) → command_of (codes "ping " ++ s) ≡ ping s
unfolding command_of same_string same_prefix
command_of-ping s = refl

module _ {K : Type 0} (services : Services K) where
  -- A line that reads `ping` and a printed address, with a card: the terminal shows the text in front
  -- of a ping with the address, the echo request goes to exactly this address, no name is asked for
  -- and nothing else happens, and the arrow key brings the line back afterwards.
  pub shell_execute-ping :
      (fuel : ℕ) (l : Line) (k : K) (ip : Ip)
      → IsLine l
      → 0 < l.input_len
      → text l ≡ codes "ping " ++ print_ip ip
      → IsIp ip
      → services.eth_ready k ≡ true
      → (l' : Line) × (shell_execute services fuel l k
          ≡ some (
            l',
            services.icmp_ping ip (
                services.term (writestring " 56 bytes\n") (
                  services.term (writetext (print_ip ip)) (services.term (writestring "PING ") k))),
          ))
        × (text (shell_history_up (clear_line l')) ≡ codes "ping " ++ print_ip ip)
  unfolding shell_execute run_command with_card run_ping ping_address say
  shell_execute-ping fuel l k ip v h t valid ready =
      let typed : command_of (c_string l.input) ≡ ping (print_ip ip) =
        ap command_of (c_string-text l v ∙ t) ∙ command_of-ping (print_ip ip) in
      (
        remember l,
        rw
            (
              shell_execute,
              run_command,
              with_card,
              run_ping,
              ne→== l.input_len 0 (ground arith),
              typed,
              ready,
              is_ip-print_ip ip valid,
              parse_ip-print_ip ip valid,
            )
            refl,
        shell_history_up-remember l v h ∙ t,
      )

  -- The reply to a request has no more bytes after this many reads that give some.
  pub data Ends (req : ℕ) : ℕ → K → Type 0 where
    last : {k : K} → length (services.http_read req 512 k).0 ≡ 0 → Ends req 0 k
    more :
        {n : ℕ} {k : K}
        → length (services.http_read req 512 k).0 ≢ 0
        → Ends req n (
            say services
              (map putchar (services.http_read req 512 k).0)
              (services.http_read req 512 k).1)
        → Ends req (suc n) k

  -- The loop of `wget` comes to its end, with more fuel than reads that give bytes.
  pub read_all-ne-none :
      (fuel n req total : ℕ) (k : K)
      → Ends req n k
      → n < fuel
      → read_all services fuel req total k ≢ none
  unfolding read_all
  read_all-ne-none zero n req total k e h = absurd (omega arith)
  read_all-ne-none (suc fuel) zero req total k (last z) h =
      rw (read_all, eq→== (length (services.http_read req 512 k).0) 0 z) (λ x. cc)
  read_all-ne-none (suc fuel) (suc n) req total k (more z e) h =
      rw (read_all, ne→== (length (services.http_read req 512 k).0) 0 z)
        (read_all-ne-none fuel n req (total + length (services.http_read req 512 k).0)
          (say services (map putchar (services.http_read req 512 k).0)
            (services.http_read req 512 k).1)
          e (omega arith))
