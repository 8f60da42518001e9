-- ===== src/Shell/Line/Invariant.antt =====
-- Every step of the line editor of shell/shell.c keeps both arrays in shape.
use chris_os.Base.{All-take, All-append, if_lem, ℕ, ◌+◌, ◌-◌, ◌≤◌, ◌<◌, ◌≡◌, sym, ◌∙◌, ◌≢◌}
use chris_os.Base.{inl, inr, List, [], ◌∷◌, ◌++◌, arith, ◌==◌, ltb, Bool-cases, length, set}
use chris_os.Base.{take, length-set, get_or-set_self}
use mathlib.Core.Path.{subst}
use chris_os.Shell.Line.{Line, copy_chars, type_char, erase_char, remember, clear_line}
use chris_os.Shell.Line.{shell_cursor_left, shell_cursor_right, shell_history_up}
use chris_os.Shell.Line.{shell_history_down}
use chris_os.Shell.Line.Laws.{take-typed, text, last, IsText, IsLine, length-copy_chars}
use chris_os.Shell.Line.Laws.{take-set_copy, take-set, take-take_le}

-- What the keys do to the line. No key gives the character 0.
pub data Step : Line → Line → Type 0 where
  typed : (l : Line) (c : ℕ) → c ≢ 0 → Step l (type_char c l)
  erased : (l : Line) → Step l (erase_char l)
  entered : (l : Line) → Step l (clear_line (remember l))
  skipped : (l : Line) → Step l (clear_line l)
  left : (l : Line) → Step l (shell_cursor_left l)
  right : (l : Line) → Step l (shell_cursor_right l)
  up : (l : Line) → Step l (shell_history_up l)
  down : (l : Line) → Step l (shell_history_down l)

pub data Steps : Line → Line → Type 0 where
  done : (l : Line) → Steps l l
  step : {l m n : Line} → Step l m → Steps m n → Steps l n

type_char-IsLine : (c : ℕ) (l : Line) → c ≢ 0 → IsLine l → IsLine (type_char c l)
unfolding type_char text last
type_char-IsLine c l ne v =
    let n = l.input_len in
    let size = v.input_size_in in
    let sized = length-set l.input n c in
    elim (Bool-cases (ltb n 255)) [
      | inl e ↦
          let room : n < 255 = ground (arith, e) in
          let whole : IsText (take n l.input ++ (c ∷ [])) =
            All-append (λ x. x ≢ 0) (take n l.input) (c ∷ []) v.no_zero (ne, tt) in
          rw e (record {
            input_size_in = length-set (set l.input n c) (n + 1) 0 ∙ (sized ∙ size);
            history_size_in = v.history_size_in;
            input_in = omega arith;
            history_in = v.history_in;
            ends = get_or-set_self (set l.input n c) (n + 1) 0 0 (omega arith);
            no_zero = subst IsText (sym (take-typed l.input n c (omega arith))) whole;
            last_no_zero = v.last_no_zero;
          })
      | inr e ↦ rw e v
    ]

-- A shorter text, with a zero written behind it.
shortened : (xs : List ℕ) (m n : ℕ) → m ≤ n → IsText (take n xs) → IsText (take m (set xs m 0))
shortened xs m n h t =
    subst IsText (sym (take-set xs m 0))
      (subst IsText (take-take_le m n xs h) (All-take (λ x. x ≢ 0) m (take n xs) t))

erase_char-IsLine : (l : Line) → IsLine l → IsLine (erase_char l)
unfolding erase_char text last
erase_char-IsLine l v =
    let n = l.input_len in
    let size = v.input_size_in in
    let input_in = v.input_in in
    elim (Bool-cases (ltb 0 n)) [
      | inl e ↦ rw e (record {
        input_size_in = length-set l.input (n - 1) 0 ∙ size;
        history_size_in = v.history_size_in;
        input_in = omega arith;
        history_in = v.history_in;
        ends = get_or-set_self l.input (n - 1) 0 0 (omega arith);
        no_zero = shortened l.input (n - 1) n (omega arith) v.no_zero;
        last_no_zero = v.last_no_zero;
      })
      | inr e ↦ rw e v
    ]

clear_line-IsLine : (l : Line) → IsLine l → IsLine (clear_line l)
unfolding clear_line text last
clear_line-IsLine l v =
    let size = v.input_size_in in
    record {
      input_size_in = length-set l.input 0 0 ∙ size;
      history_size_in = v.history_size_in;
      input_in = omega arith;
      history_in = v.history_in;
      ends = get_or-set_self l.input 0 0 0 (omega arith);
      no_zero = tt;
      last_no_zero = v.last_no_zero;
    }

remember-IsLine : (l : Line) → IsLine l → IsLine (remember l)
unfolding remember text last
remember-IsLine l v =
    let n = l.input_len in
    let size = v.input_size_in in
    let history_size = v.history_size_in in
    let input_in = v.input_in in
    record {
      input_size_in = size;
      history_size_in =
          length-set (copy_chars n 0 l.input l.history) n 0
          ∙ (length-copy_chars n 0 l.input l.history ∙ history_size);
      input_in = v.input_in;
      history_in = v.input_in;
      ends = v.ends;
      no_zero = v.no_zero;
      last_no_zero =
          subst IsText (sym (take-set_copy n l.input l.history (omega arith) (omega arith)))
            v.no_zero;
    }

shell_history_up-IsLine : (l : Line) → IsLine l → IsLine (shell_history_up l)
unfolding shell_history_up text last
shell_history_up-IsLine l v =
    let n = l.history_len in
    let size = v.input_size_in in
    let history_size = v.history_size_in in
    let history_in = v.history_in in
    let copied = copy_chars n 0 l.history l.input in
    let sized : length copied ≡ 256 = length-copy_chars n 0 l.history l.input ∙ size in
    elim (Bool-cases (n == 0)) [
      | inl e ↦ rw e v
      | inr e ↦ rw e (record {
        input_size_in = length-set copied n 0 ∙ sized;
        history_size_in = v.history_size_in;
        input_in = v.history_in;
        history_in = v.history_in;
        ends = get_or-set_self copied n 0 0 (omega arith);
        no_zero =
            subst IsText (sym (take-set_copy n l.history l.input (omega arith) (omega arith)))
              v.last_no_zero;
        last_no_zero = v.last_no_zero;
      })
    ]

-- A step that moves the cursor changes nothing else.
moved : (l : Line) (p : ℕ) → IsLine l → IsLine (record l { cursor_pos = p })
unfolding text last
moved l p v = record {
  input_size_in = v.input_size_in;
  history_size_in = v.history_size_in;
  input_in = v.input_in;
  history_in = v.history_in;
  ends = v.ends;
  no_zero = v.no_zero;
  last_no_zero = v.last_no_zero;
}

Step-IsLine : {l m : Line} → Step l m → IsLine l → IsLine m
unfolding shell_cursor_left shell_cursor_right shell_history_down clear_line
Step-IsLine (typed l c ne) v = type_char-IsLine c l ne v
Step-IsLine (erased l) v = erase_char-IsLine l v
Step-IsLine (entered l) v = clear_line-IsLine (remember l) (remember-IsLine l v)
Step-IsLine (skipped l) v = clear_line-IsLine l v
Step-IsLine (left l) v =
    if_lem IsLine (ltb 0 l.cursor_pos) (record l { cursor_pos = l.cursor_pos - 1 }) l
      (λ e. moved l (l.cursor_pos - 1) v) (λ e. v)
Step-IsLine (right l) v =
    if_lem IsLine (ltb l.cursor_pos l.input_len) (record l { cursor_pos = l.cursor_pos + 1 }) l
      (λ e. moved l (l.cursor_pos + 1) v) (λ e. v)
Step-IsLine (up l) v = shell_history_up-IsLine l v
Step-IsLine (down l) v = clear_line-IsLine l v

-- Whatever keys are typed, the texts stay inside their arrays, with room for the final zero, which
-- stands behind what has been typed and nowhere in it.
pub Steps-IsLine : {l m : Line} → Steps l m → IsLine l → IsLine m
Steps-IsLine (done l) v = v
Steps-IsLine (step s t) v = Steps-IsLine t (Step-IsLine s v)
