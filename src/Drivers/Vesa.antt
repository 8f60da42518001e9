-- ===== src/Drivers/Vesa.antt =====
-- drivers/vesa.c: the frame buffer that the boot loader has left a description of.
use chris_os.Base.{ℕ, ◌*◌, ◌/◌, ◌^◌, ◌≤◌, ◌<◌, ◌≡◌, Bool, true, false, not, ◌||◌, List, []}
use chris_os.Base.{◌∷◌, arith, ◌==◌, ltb, if◌then◌else◌}
use chris_os.Base.Word.{u32}
use chris_os.Kernel.Terminal.{TermCall, writestring}

-- The five words at 0x500.
pub record BootInfo : Type 0 where
  pub addr : ℕ
  pub width : ℕ
  pub height : ℕ
  pub bpp : ℕ
  pub pitch : ℕ

pub record Vesa : Type 0 where
  pub fb_addr : ℕ
  pub fb_width : ℕ
  pub fb_height : ℕ
  pub fb_pitch : ℕ
  pub fb_bpp : ℕ
  pub fb_active : Bool

-- Without an address, or with pixels of another size, nothing but `fb_active` is changed.
unfoldable pub vesa_init : BootInfo → Vesa → Vesa × List TermCall
vesa_init info v =
    if info.addr == 0 || not (info.bpp == 32 || info.bpp == 24)
    then (record v { fb_active = false }, writestring "VESA: not available, using text mode\n" ∷ [])
    else (
      record {
        fb_addr = info.addr;
        fb_width = info.width;
        fb_height = info.height;
        fb_pitch = if ltb 0 info.pitch then info.pitch else u32 (info.width * (info.bpp / 8));
        fb_bpp = info.bpp;
        fb_active = true;
      },
      writestring "VESA: framebuffer ready\n" ∷ [],
    )

-- On an active frame buffer of pixels of 32 bits a line has room for the pixels of a row, if the
-- line that the boot loader names has, or if it names none.
pub vesa_init-room :
    (info : BootInfo) (v : Vesa)
    → info.width < 2 ^ 30
    → (0 < info.pitch → info.width * 4 ≤ info.pitch)
    → let w = (vesa_init info v).0 in
      w.fb_active ≡ true → w.fb_bpp ≡ 32 → w.fb_width ≤ w.fb_pitch / 4
unfolding vesa_init
vesa_init-room info v small named active bpp = ground arith
