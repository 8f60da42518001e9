-- ===== src/Ui/Pointer/Examples.antt =====
-- The pointer of drivers/mouse.c on a small frame buffer.
use chris_os.Base.{◌-◌, ◌*◌, ◌^◌, ◌≡◌, true, false, arith}
use chris_os.Ui.Draw.{Frame, fb_get_pixel}
use chris_os.Ui.Draw.Laws.{IsFrame}
use chris_os.Ui.Pointer.{Pointer, erase_pointer, mouse_tick}
use chris_os.Ui.Pointer.Laws.{erase_pointer-mouse_tick, moved}

abbrev small_frame : Frame
small_frame = record { fb_width = 16; fb_height = 8; fb_stride = 16; fb_addr = λ i. i * 3 }

abbrev at_edge : Pointer
at_edge = record {
  initialized = true;
  mouse_x = 2 ^ 32 - 4;
  mouse_y = 6;
  cursor_drawn = false;
  cursor_drawn_x = 0;
  cursor_drawn_y = 0;
  cursor_bg = λ row col. 0;
}

small_frame-IsFrame : IsFrame small_frame
unfolding IsFrame
small_frame-IsFrame = omega arith

erase_pointer-mouse_tick_example :
    fb_get_pixel 1 7
      (erase_pointer
        (moved 5 5 (mouse_tick at_edge small_frame).0)
        (mouse_tick at_edge small_frame).1).1
    ≡ fb_get_pixel 1 7 (erase_pointer at_edge small_frame).1
erase_pointer-mouse_tick_example =
    erase_pointer-mouse_tick at_edge small_frame 5 5 1 7 small_frame-IsFrame
