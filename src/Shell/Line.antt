-- ===== src/Shell/Line.antt =====
-- The line editor of shell/shell.c: the line that is typed, the last command, and the cursor.
pub mod Laws
pub mod Invariant
use chris_os.Base.{ℕ, zero, suc, ◌+◌, ◌-◌, ◌*◌, ◌/◌, ◌%◌, ◌^◌, ◌≤◌, ◌<◌, min, bit_and, ◌≡◌}
use chris_os.Base.{refl, sym, ap, ap₂, ◌∙◌, ◌≢◌, ◌↔◌, ◌⊎◌, inl, inr, Bool, true, false, not}
use chris_os.Base.{◌&&◌, ◌||◌, Option, none, some, List, [], ◌∷◌, ◌++◌, map, arith, ◌==◌, ltb}
use chris_os.Base.{leb, if◌then◌else◌, eq→==, ne→==, ==→eq, lt→ltb, le→ltb, Bool-cases}
use chris_os.Base.{Option-cases, length, get_or, set, take, drop, replicate, length-append}
use chris_os.Base.{length-set, length-replicate, get_or-set_self, get_or-set_ne, All}

abbrev pub input_size : ℕ
input_size = 256

-- The two arrays have `input_size` places.
pub record Line : Type 0 where
  pub input : List ℕ
  pub input_len : ℕ
  pub history : List ℕ
  pub history_len : ℕ
  pub cursor_pos : ℕ

-- `for (i = 0; i < len; i++) to[i] = from[i]`, from the place `i` on
unfoldable pub copy_chars : ℕ → ℕ → List ℕ → List ℕ → List ℕ
copy_chars zero i from to = to
copy_chars (suc left) i from to = copy_chars left (i + 1) from (set to i (get_or from i 0))

-- The text that an array holds: what stands before the first zero.
unfoldable pub c_string : List ℕ → List ℕ
c_string [] = []
c_string (c ∷ cs) = let rest = c_string cs in if c == 0 then [] else c ∷ rest

-- What a character other than a newline and a backspace does, if there is room for it.
unfoldable pub type_char : ℕ → Line → Line
type_char c l =
    if ltb l.input_len (input_size - 1)
    then record l {
      input = set (set l.input l.input_len c) (l.input_len + 1) 0;
      input_len = l.input_len + 1;
    }
    else l

unfoldable pub erase_char : Line → Line
erase_char l =
    if ltb 0 l.input_len
    then record l { input = set l.input (l.input_len - 1) 0; input_len = l.input_len - 1 }
    else l

-- What `shell_execute` keeps of the command before it runs it.
unfoldable pub remember : Line → Line
unfolding copy_chars
remember l = record l {
  history = set (copy_chars l.input_len 0 l.input l.history) l.input_len 0;
  history_len = l.input_len;
}

-- The line after a command.
unfoldable pub clear_line : Line → Line
clear_line l = record l { input = set l.input 0 0; input_len = 0; cursor_pos = 0 }

unfoldable pub shell_cursor_left : Line → Line
shell_cursor_left l = if ltb 0 l.cursor_pos then record l { cursor_pos = l.cursor_pos - 1 } else l

unfoldable pub shell_cursor_right : Line → Line
shell_cursor_right l =
    if ltb l.cursor_pos l.input_len then record l { cursor_pos = l.cursor_pos + 1 } else l

unfoldable pub shell_history_up : Line → Line
unfolding copy_chars
shell_history_up l = if l.history_len == 0 then l else record l {
  input = set (copy_chars l.history_len 0 l.history l.input) l.history_len 0;
  input_len = l.history_len;
  cursor_pos = l.history_len;
}

unfoldable pub shell_history_down : Line → Line
shell_history_down l = record l { input_len = 0; input = set l.input 0 0; cursor_pos = 0 }
