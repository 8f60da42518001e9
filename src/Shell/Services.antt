-- ===== src/Shell/Services.antt =====
-- The functions of the other components that shell/shell.c calls, on a state of the whole kernel.
use chris_os.Base.{ℕ, Bool, List, Option}
use Prim.Native.String.{String}
use chris_os.Kernel.Terminal.{TermCall, Terminal}
use chris_os.Net.Types.{Ip, Mac}

-- A buffer of the heap is an address; a file or a reply is the bytes that it leaves in the buffer,
-- and its length is the number that the call returns.
pub record Services (K : Type 0) : Type 0 where
  pub term : TermCall → K → K
  -- The variables `terminal_row`, `terminal_column`, `terminal_color` and the VGA buffer.
  pub get_terminal : K → Terminal
  pub set_terminal : Terminal → K → K
  pub terminal_initialize : K → K
  pub fb_active : K → Bool
  pub gterm_cur_fg : ℕ → K → K
  pub gterm_putchar : ℕ → K → K
  pub gterm_init : K → K
  pub vesa_init : K → K
  pub draw_desktop : K → K
  pub draw_taskbar : K → K
  pub draw_window : ℕ → ℕ → ℕ → ℕ → String → K → K
  pub draw_string : ℕ → ℕ → String → ℕ → ℕ → K → K
  pub kmalloc : ℕ → K → ℕ × K
  pub kfree : ℕ → K → K
  pub mm_used : K → ℕ
  pub mm_free : K → ℕ
  pub get_ticks : K → ℕ
  pub reboot : K → K
  pub installer_is_active : K → Bool
  pub installer_start : K → K
  pub installer_handle_char : ℕ → K → K
  pub fat32_ls : K → K
  pub fat32_read_file : List ℕ → ℕ → K → List ℕ × K
  pub elf_exec : List ℕ → K → K
  pub ata_read_sector : ℕ → ℕ → K → Option (List ℕ) × K
  pub eth_ready : K → Bool
  pub eth_get_mac : K → Mac
  pub eth_get_ip : K → Ip
  pub dhcp_request : K → K
  pub dns_lookup : List ℕ → K → Ip × K
  pub icmp_ping : Ip → K → K
  pub http_get : List ℕ → K → Option ℕ × K
  pub http_read : ℕ → ℕ → K → List ℕ × K
  pub http_close : ℕ → K → K
