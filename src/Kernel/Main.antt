-- ===== src/Kernel/Main.antt =====
-- `kernel` of kernel/kernel.c: the order of the initialisation and the rounds of the main loop.
--
-- The calls of the other parts are the steps of a list, in their order; their effects are modelled
-- with the parts. The letters of `vga_debug`, the messages and what is drawn into the window are
-- left out.
pub mod Laws
mod Examples
use chris_os.Base.{ℕ, ◌+◌, ◌-◌, ◌%◌, ◌^◌, Bool, List, [], ◌∷◌, ◌++◌, ltb, if◌then◌else◌}
use chris_os.Base.Int.{ℤ, int32}
use chris_os.Base.Text.{codes}
use chris_os.Base.Word.{u32}
use chris_os.Kernel.Text.{itoa}

-- A call of the initialisation.
pub data Call : Type 0 where
  terminal_initialize_call : Call
  idt_init_call : Call
  isr_init_call : Call
  irq_init_call : Call
  mm_init_call : Call
  keyboard_init_call : Call
  ata_init_call : Call
  fat32_init_call : Call
  mouse_init_call : Call
  sched_init_call : Call
  serial_init_call : Call
  syscall_init_call : Call
  irq_install_handler_call : ℕ → Call
  sti_call : Call
  eth_init_call : Call
  netstack_init_call : Call
  dhcp_request_call : Call
  vesa_init_call : Call
  draw_desktop_call : Call
  draw_taskbar_call : Call
  draw_window_call : Call
  gterm_init_call : Call
  shell_init_call : Call

-- What follows `eth_init`, when the card is ready.
unfoldable pub net_calls : Bool → ℕ → List Call
net_calls ready nic_irq =
    if ready
    then netstack_init_call ∷ irq_install_handler_call nic_irq ∷ dhcp_request_call ∷ []
    else []

-- What follows `vesa_init`, when the frame buffer is active.
unfoldable pub screen_calls : Bool → List Call
screen_calls fb_active =
    if fb_active
    then draw_desktop_call ∷ draw_taskbar_call ∷ draw_window_call ∷ gterm_init_call ∷ []
    else []

-- The calls up to the main loop; `ready` and `nic_irq` are what the driver of the card answers, and
-- `fb_active` is the flag of the frame buffer.
unfoldable pub kernel_init : Bool → ℕ → Bool → List Call
kernel_init ready nic_irq fb_active =
    terminal_initialize_call
    ∷ idt_init_call
    ∷ isr_init_call
    ∷ irq_init_call
    ∷ mm_init_call
    ∷ keyboard_init_call
    ∷ ata_init_call
    ∷ fat32_init_call
    ∷ mouse_init_call
    ∷ sched_init_call
    ∷ serial_init_call
    ∷ syscall_init_call
    ∷ irq_install_handler_call 0
    ∷ sti_call
    ∷ eth_init_call
    ∷ (net_calls ready nic_irq
        ++ (vesa_init_call ∷ (screen_calls fb_active ++ (shell_init_call ∷ []))))

-- The text that shows the mouse: `itoa` writes behind what is there.
unfoldable pub debug_text : ℤ → ℤ → ℤ → ℤ → ℤ → List ℕ
debug_text x y b dx dy =
    codes "X:"
    ++ (itoa x
        ++ (codes " Y:"
            ++ (itoa y
                ++ (codes " B:"
                    ++ (itoa b ++ (codes " DX:" ++ (itoa dx ++ (codes " DY:" ++ itoa dy))))))))

-- A call of a round of the main loop.
pub data Work : Type 0 where
  poll_card : Work
  taskbar : Work
  tick_terminal : Work
  tick_mouse : Work
  debug : Work

-- A round behind the `hlt`, at the time `now`: the new time of the last drawing, and what is called.
unfoldable pub main_round : Bool → ℕ → ℕ → ℕ × List Work
main_round fb_active now last_draw_tick =
    if fb_active
    then (if ltb (u32 (now + 2 ^ 32 - last_draw_tick)) 10
        then (last_draw_tick, poll_card ∷ [])
        else (now, poll_card ∷ taskbar ∷ tick_terminal ∷ tick_mouse ∷ debug ∷ []))
    else (last_draw_tick, poll_card ∷ [])

-- `timer_handler`
unfoldable pub timer_handler : ℕ → ℕ
timer_handler ticks = u32 (ticks + 1)
