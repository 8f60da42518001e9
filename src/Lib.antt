-- ===== src/Lib.antt =====
-- ChrisOS, a 32-bit hobby operating system, as definitions and theorems.
--
-- The kernel proper is a heap allocator (kernel/mm.c), a scheduler over it (kernel/sched.c) and the
-- interrupts' gates and handlers (kernel/idt.c, kernel/isr.c, kernel/irq.c). The network stack
-- (net/) is polled: the card's driver hands each frame to netstack_rx, which passes it to ARP or
-- IPv4, and IPv4 to UDP or TCP; sending goes the other way, through a lookup of the hardware
-- address. The file system (fs/fat32.c) and the installer (fs/installer.c) stand on the sectors of
-- the disk driver (drivers/ata.c). The shell (shell/shell.c) takes the keys and calls all of these,
-- and prints through the terminal of kernel/kernel.c, which is a VGA text buffer or the window of
-- ui/gterm.c.
--
-- Base: names shared by all modules, lists as C arrays, fixed-width numbers, integers and memory.
-- Mm models kernel/mm.c. A heap is the list of its blocks in order of address.
-- Sched models kernel/sched.c. The state is the table with the heap that stacks come from; what the
-- CPU does next is an action that an operation returns.
-- Net models net/: Net.Types is net/net_types.h, Net.Checksum the two checksum loops, and Net.Eth,
-- Net.Arp, Net.Ipv4, Net.Icmp, Net.Udp, Net.Tcp, Net.Dhcp, Net.Dns and Net.Http the files of these
-- names; netstack_rx stands in Net.Ipv4, and Net.Wire joins the layers for UDP. What a layer sends
-- is a list of calls of the layer below. Where the code waits by polling until a deadline, the
-- model takes a list of rounds, each the packets of one poll. Net.Http calls the layers below
-- through a record of operations.
-- Fs.Fat32 models fs/fat32.c: Table the sectors, the clusters and the allocation table, Names and
-- Dir the directory, Files the operations and Listing fat32_ls. The disk is a function from sectors
-- to bytes. Fs.Fat32.Areas follows the writes to a part of the volume, and Sectors, Layout, Alloc
-- and Chain build on it what the operations on files rely on. Fs.Elf models fs/elf.c, whose
-- elf_exec joins the heap's model, the threads' and the loading. Fs.Installer models fs/installer.c
-- over the two drives of Drivers.Disk, and what it prints is a list of calls of the terminal.
-- Drivers.Ata models drivers/ata.c as programs over the port instructions of Drivers.Ports; what
-- the controller does is a parameter, and Drivers.Ata.Protocol states what the driver relies on:
-- the protocol, and in IsQuiet what ata_wait_drq takes for granted beyond it.
-- Its reads and writes fill the interface Drivers.Disk. Drivers.Keyboard and Drivers.Mouse model
-- the handlers of drivers/keyboard.c and drivers/mouse.c, Drivers.Serial drivers/serial.c,
-- Drivers.Vesa drivers/vesa.c, and Ui.Pointer mouse_tick.
-- Kernel.Text, Kernel.Terminal and Kernel.Print model the string functions and the VGA terminal of
-- kernel/kernel.c and the formats of kernel/kprintf.c, Kernel.Interrupts the tables of gates and of
-- handlers, Kernel.Syscall the system calls of kernel/syscall.c, Kernel.Panic kernel/panic.c with
-- the klog of kernel/kprintf.c, and Kernel.Main the calls of the kernel's initialisation and the
-- rounds of its main loop. Ui.Gterm models the grid of ui/gterm.c, Ui.Draw the frame buffer of
-- drivers/vesa.h with the lines and texts of ui/draw.c, and Ui.Shapes its window, task bar, desktop
-- and pointer.
-- Shell models shell/shell.c: Shell.Line is the line editor, Shell.Address the addresses,
-- Shell.Command the table of commands, and Shell.Execute what they and the keys do, over the calls
-- of the other parts in Shell.Services.
--
-- A pointer to received bytes is a function from offsets to bytes, so a read behind the end gives
-- the memory that happens to follow. Numbers are natural numbers with each wrap-around written out.
-- Fuel: the folding of carries has three units, the walks over DHCP options and over the names of a
-- DNS answer one for each byte and one more, and the waits of the disk and mouse drivers the rounds
-- of the code; the loops over the digits of a number have 32, as a 32-bit number has no more digits
-- in any base. The search of the bus, the loops over cluster chains and the loop of wget take any
-- amount, and a result none, or out_of_fuel, means that it ran out.
--
-- Where a write of a file frees the old chain, fuel for one step more than the chain has clusters
-- is enough, and two steps are enough to read back a file of one cluster.
--
-- Not modelled: assembly; draw_line, which nothing calls, and the frame buffer with 24 bits for a
-- pixel; the pixels of ui/gterm.c; the tables of ui/font.c, which are an argument; the cursor of
-- the VGA hardware, and the messages of the network card's driver.
pub mod Base
pub mod Mm
pub mod Net
pub mod Sched
pub mod Fs
pub mod Drivers
pub mod Kernel
pub mod Ui
pub mod Shell
