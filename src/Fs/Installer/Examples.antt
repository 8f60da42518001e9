-- ===== src/Fs/Installer/Examples.antt =====
-- The witnesses of the installer, on the controller with two drives in memory.
use chris_os.Base.{◌≡◌, refl, ◌≢◌, true, false, none, [], ◌∷◌, arith}
use chris_os.Drivers.Ata.Protocol.{IsReady}
use chris_os.Drivers.Ata.Sectors.{ata_drives, sector_bytes, ata_drives-IsDrives}
use chris_os.Drivers.Disk.{Drives, IsDrives}
use chris_os.Drivers.Examples.{Machine, machine, machine_ports, machine_channel, machine-IsAta}
use chris_os.Drivers.Examples.{machine-IsQuiet, machine-IsReady}
use chris_os.Fs.Installer.{Installer, type_keys, installer_handle_char, install_sector_count}
use chris_os.Fs.Installer.Laws.{IsSafe, IsQuiet, IsCopy, IsInstaller, IsConfirmed}
use chris_os.Fs.Installer.Laws.{type_keys-IsSafe, installer_handle_char-IsCopy}
use chris_os.Mm.{mm_init, kmalloc, find_fit, align_up}

abbrev drives : Drives Machine
drives = ata_drives machine_ports

abbrev drives_laws : IsDrives drives (sector_bytes machine_channel) (IsReady machine_channel)
drives_laws = ata_drives-IsDrives machine-IsAta machine-IsQuiet

abbrev asked : Installer
asked = record { active = true; state = 0; found = 0 ∷ 1 ∷ []; target_drive = 0xff }

abbrev waiting : Installer
waiting = record { active = true; state = 1; found = 0 ∷ 1 ∷ []; target_drive = 1 }

asked-IsInstaller : IsInstaller drives_laws asked
unfolding IsInstaller
asked-IsInstaller h = absurd (omega arith)

y-IsConfirmed : IsConfirmed drives_laws b'y'
unfolding IsConfirmed
y-IsConfirmed = refl

memory_left : kmalloc 512 mm_init ≢ none
unfolding kmalloc mm_init find_fit align_up
memory_left = λ e. cc

type_keys-IsSafe_example :
    IsSafe drives_laws
      (IsQuiet drives_laws (b'0' ∷ b'1' ∷ b'n' ∷ []))
      machine
      (type_keys drives (b'0' ∷ b'1' ∷ b'n' ∷ []) asked mm_init machine).hardware
type_keys-IsSafe_example =
    type_keys-IsSafe drives_laws (b'0' ∷ b'1' ∷ b'n' ∷ []) asked mm_init machine machine-IsReady
      asked-IsInstaller

installer_handle_char-IsCopy_example :
    IsCopy drives_laws 1 install_sector_count 0 machine
      (installer_handle_char drives b'y' waiting mm_init machine).hardware
    × ((installer_handle_char drives b'y' waiting mm_init machine).installer.active ≡ false)
installer_handle_char-IsCopy_example =
    installer_handle_char-IsCopy drives_laws b'y' waiting mm_init machine machine-IsReady refl refl
      refl y-IsConfirmed memory_left
