-- ===== src/Fs/Installer.antt =====
-- fs/installer.c, which copies the first sectors of the boot drive to the other drive, driven by the
-- keys that the user types.
--
-- The drives are the operations of `Drives`; what the code prints is a list of calls of the
-- terminal. `found_count` is the length of `found`.
pub mod Laws
mod Examples
use chris_os.Base.{ℕ, zero, suc, ◌+◌, ◌-◌, ◌*◌, ◌/◌, ◌%◌, ◌^◌, ◌≤◌, ◌<◌, min, bit_and, ◌≡◌}
use chris_os.Base.{refl, sym, ap, ap₂, ◌∙◌, ◌≢◌, ◌↔◌, ◌⊎◌, inl, inr, Bool, true, false, not}
use chris_os.Base.{◌&&◌, ◌||◌, Option, none, some, List, [], ◌∷◌, ◌++◌, map, arith, ◌==◌, ltb}
use chris_os.Base.{leb, if◌then◌else◌, eq→==, ne→==, ==→eq, lt→ltb, le→ltb, Bool-cases}
use chris_os.Base.{Option-cases, length, get_or, set, take, drop, replicate, length-append}
use chris_os.Base.{length-set, length-replicate, get_or-set_self, get_or-set_ne, All}
use chris_os.Base.Word.{u8, u32}
use Prim.Native.String.{String}
use mathlib.Core.List.{reverse}
use chris_os.Drivers.Disk.{Drives}
use chris_os.Kernel.Terminal.{TermCall, putchar, writestring, setcolor, make_color}
use chris_os.Kernel.Text.{digits_from, lower_digits}
use chris_os.Mm.{Heap, kmalloc}

abbrev pub install_sector_count : ℕ
install_sector_count = 53248

abbrev pub source_drive : ℕ
source_drive = 0

pub record Installer : Type 0 where
  pub active : Bool
  pub state : ℕ
  pub found : List ℕ
  pub target_drive : ℕ

-- `vga_color`: light grey, light cyan and light red on black
abbrev light_grey : ℕ
light_grey = make_color 7 0

abbrev light_cyan : ℕ
light_cyan = make_color 11 0

abbrev light_red : ℕ
light_red = make_color 12 0

-- The digits in `tmp`, whose twelve places are enough for 32 bits, from the last to the first.
unfoldable pub print_num : ℕ → List TermCall
print_num n =
    if n == 0 then putchar b'0' ∷ [] else map putchar (reverse (digits_from 12 lower_digits 10 n))

-- The progress that is shown at every twentieth of the sectors.
unfoldable pub progress : ℕ → List TermCall
unfolding print_num
progress lba =
    if lba % (install_sector_count / 20) == 0
    then (writestring "  [" ∷ print_num (u32 (lba * 100) / install_sector_count))
      ++ (writestring "%] sector " ∷ print_num lba)
      ++ (writestring " / " ∷ print_num install_sector_count)
      ++ (putchar 10 ∷ [])
    else []

-- What a loop over the sectors leaves: whether it has come to its end, the hardware, and the calls
-- of the terminal.
pub record Copied (S : Type 0) : Type 0 where
  pub complete : Bool
  pub hardware : S
  pub shown : List TermCall

-- What `run_install` leaves.
pub record Installed (S : Type 0) : Type 0 where
  pub heap : Heap
  pub hardware : S
  pub shown : List TermCall

-- What a call of the installer leaves.
pub record Outcome (S : Type 0) : Type 0 where
  pub installer : Installer
  pub heap : Heap
  pub hardware : S
  pub shown : List TermCall

unfoldable pub error_at : String → ℕ → List TermCall
unfolding print_num
error_at text lba = (writestring text ∷ print_num lba) ++ (writestring " — install aborted.\n" ∷ [])

module _ {S : Type 0} (drives : Drives S) where
  -- The loop over the sectors, with `left` of them still to go.
  unfoldable pub copy_sectors : ℕ → ℕ → ℕ → S → Copied S
  unfolding progress error_at
  copy_sectors target zero lba s = record { complete = true; hardware = s; shown = [] }
  copy_sectors target (suc left) lba s =
      let (bytes, s) = drives.read_at source_drive lba s in
      elim bytes [
        | none ↦ record {
          complete = false;
          hardware = s;
          shown = error_at "\nRead error at LBA " lba;
        }
        | some buf ↦
            let (written, s) = drives.write_at target lba buf s in
            elim written [
              | false ↦ record {
                complete = false;
                hardware = s;
                shown = error_at "\nWrite error at LBA " lba;
              }
              | true ↦
                  let rest = copy_sectors target left (lba + 1) s in
                  record {
                    complete = rest.complete;
                    hardware = rest.hardware;
                    shown = progress lba ++ rest.shown;
                  }
            ]
      ]

  -- The buffer is never given back.
  unfoldable pub run_install : ℕ → Heap → S → Installed S
  unfolding copy_sectors
  run_install target heap s =
      let start = writestring "\nInstalling... please wait.\n" in
      elim (kmalloc 512 heap) [
        | none ↦ record {
          heap = heap;
          hardware = s;
          shown = start ∷ writestring "installer: out of memory\n" ∷ [];
        }
        | some (buf, heap) ↦
            let copied = copy_sectors target install_sector_count 0 s in
            record {
              heap = heap;
              hardware = copied.hardware;
              shown =
                  start ∷ copied.shown
                  ++ (if copied.complete
                      then writestring "\nInstall complete!\n"
                        ∷ writestring "Remove the boot USB/drive, then reboot.\n"
                        ∷ writestring "Type 'reboot' to restart now.\n"
                        ∷ []
                      else []);
            }
      ]

  -- The loop over the drives: what is found, the hardware and what is printed, from the drive `d` on.
  unfoldable pub scan_drives : ℕ → ℕ → S → List ℕ × (S × List TermCall)
  scan_drives zero d s = ([], (s, []))
  scan_drives (suc left) d s =
      let (present, s) = drives.detect d s in
      let (found, (s, shown)) = scan_drives left (d + 1) s in
      if present
      then (
        d ∷ found,
        (
          s,
          writestring "  Drive "
              ∷ putchar (b'0' + d)
              ∷ writestring (
                  if d == source_drive
                  then " - primary master (boot drive)\n"
                  else " - primary slave\n")
              ∷ shown,
        ),
      )
      else (found, (s, shown))

  -- The targets that are offered.
  unfoldable pub offer : List ℕ → List TermCall
  offer [] = []
  offer (d ∷ found) =
      let rest = offer found in
      if d == source_drive
      then rest
      else writestring "  " ∷ putchar (b'0' + d) ∷ writestring " - primary slave\n" ∷ rest

  unfoldable pub installer_start : Heap → S → Outcome S
  unfolding scan_drives offer
  installer_start heap s =
      let (found, (s, shown)) = scan_drives 2 0 s in
      let opening =
        putchar 10
        ∷ setcolor light_cyan
        ∷ writestring "=== Chris OS Installer ===\n\n"
        ∷ setcolor light_grey
        ∷ writestring "Scanning drives...\n"
        ∷ shown in
      if ltb (length found) 2
      then record {
        installer = record { active = false; state = 0; found = found; target_drive = 0xff };
        heap = heap;
        hardware = s;
        shown =
            opening
            ++ (setcolor light_red
                ∷ writestring "\nOnly one drive detected.\n"
                ∷ writestring "Connect a second drive to install onto, then try again.\n"
                ∷ setcolor light_grey
                ∷ []);
      }
      else record {
        installer = record { active = true; state = 0; found = found; target_drive = 0xff };
        heap = heap;
        hardware = s;
        shown =
            opening
            ++ (putchar 10
                ∷ writestring "Available target drives (do NOT pick the boot drive):\n"
                ∷ offer found)
            ++ (putchar 10 ∷ writestring "Type the target drive number: " ∷ []);
      }

  -- `found[i] == chosen` for some of the drives found
  unfoldable pub is_found : List ℕ → ℕ → Bool
  is_found [] chosen = false
  is_found (d ∷ found) chosen = if d == chosen then true else is_found found chosen

  -- A key while the target is asked for.
  unfoldable pub choose_target : ℕ → Installer → Heap → S → Outcome S
  unfolding is_found
  choose_target c i heap s =
      let again : String → Outcome S = λ text. record {
        installer = i;
        heap = heap;
        hardware = s;
        shown = putchar c ∷ writestring text ∷ [];
      } in
      if ltb c b'0' || ltb b'1' c
      then again "\nInvalid drive number. Try again: "
      else if u8 (c - b'0') == source_drive
      then again "\nThat is the boot drive — choose a different one: "
      else if not (is_found i.found (u8 (c - b'0')))
      then again "\nDrive not detected. Try again: "
      else record {
        installer = record i { target_drive = u8 (c - b'0'); state = 1 };
        heap = heap;
        hardware = s;
        shown =
            putchar c
            ∷ putchar 10
            ∷ setcolor light_red
            ∷ writestring "\nWARNING: This will ERASE drive "
            ∷ putchar (b'0' + u8 (c - b'0'))
            ∷ writestring " and write ~26MB of data.\n"
            ∷ setcolor light_grey
            ∷ writestring "Type 'y' to confirm, 'n' to cancel: "
            ∷ [];
      }

  -- A key while the confirmation is asked for. The state 2 stands only during the copying.
  unfoldable pub confirm : ℕ → Installer → Heap → S → Outcome S
  unfolding run_install
  confirm c i heap s =
      let installed = run_install i.target_drive heap s in
      elim (c == b'y' || c == b'Y') [
        | true ↦ record {
          installer = record i { active = false; state = 3 };
          heap = installed.heap;
          hardware = installed.hardware;
          shown = putchar c ∷ putchar 10 ∷ installed.shown;
        }
        | false ↦ record {
          installer = record i { active = false };
          heap = heap;
          hardware = s;
          shown = putchar c ∷ putchar 10 ∷ writestring "Install cancelled.\n" ∷ [];
        }
      ]

  unfoldable pub installer_handle_char : ℕ → Installer → Heap → S → Outcome S
  unfolding choose_target confirm
  installer_handle_char c i heap s =
      let ignored : Outcome S = record { installer = i; heap = heap; hardware = s; shown = [] } in
      if not i.active
      then ignored
      else if i.state == 0
      then choose_target c i heap s
      else if i.state == 1
      then confirm c i heap s
      else ignored

  -- What the user types, one key after the other.
  unfoldable pub type_keys : List ℕ → Installer → Heap → S → Outcome S
  unfolding installer_handle_char
  type_keys [] i heap s = record { installer = i; heap = heap; hardware = s; shown = [] }
  type_keys (c ∷ cs) i heap s =
      let o = installer_handle_char c i heap s in
      let rest = type_keys cs o.installer o.heap o.hardware in
      record rest { shown = o.shown ++ rest.shown }
