-- ===== src/Shell/Line/Laws.antt =====
-- The line editor of shell/shell.c: what is typed stays inside the arrays, and what the arrays hold
-- is the text that was typed.
use chris_os.Base.{ℕ, zero, suc, ◌+◌, ◌-◌, ◌≤◌, ◌<◌, ◌≡◌, refl, sym, ap, ap₂, ◌∙◌, ◌≢◌, inl}
use chris_os.Base.{inr, List, [], ◌∷◌, ◌++◌, arith, ltb, eq→==, ne→==, lt→ltb, Bool-cases}
use chris_os.Base.{length, get_or, set, take, length-set, get_or-set_self, All}
use mathlib.Core.Path.{subst}
use chris_os.Shell.Line.{Line, copy_chars, c_string, type_char, erase_char, remember}
use chris_os.Shell.Line.{clear_line, shell_history_up}

-- The text on the line, and the last command.
unfoldable pub text : Line → List ℕ
text l = take l.input_len l.input

unfoldable pub last : Line → List ℕ
last l = take l.history_len l.history

abbrev pub IsText : List ℕ → Type 0
IsText cs = All (λ c. c ≢ 0) cs

-- Both arrays keep their size and have room for the final zero, which stands behind the text; the
-- text has no zero in it.
pub record IsLine (l : Line) : Type 0 where
  pub input_size_in : length l.input ≡ 256
  pub history_size_in : length l.history ≡ 256
  pub input_in : l.input_len < 256
  pub history_in : l.history_len < 256
  pub ends : get_or l.input l.input_len 0 ≡ 0
  pub no_zero : IsText (text l)
  pub last_no_zero : IsText (last l)

-- The text that an array holds up to its first zero.
pub c_string-take :
    (xs : List ℕ) (n : ℕ)
    → n < length xs
    → get_or xs n 0 ≡ 0
    → IsText (take n xs)
    → c_string xs ≡ take n xs
unfolding c_string
c_string-take [] n h z t = absurd (omega arith)
c_string-take (x ∷ xs) zero h z t = rw (c_string, eq→== x 0 z) refl
c_string-take (x ∷ xs) (suc n) h z (ne, t) =
    rw (c_string, ne→== x 0 ne) (ap (λ cs. x ∷ cs) (c_string-take xs n (omega arith) z t))

pub take-set : (xs : List ℕ) (n v : ℕ) → take n (set xs n v) ≡ take n xs
take-set [] zero v = refl
take-set [] (suc n) v = refl
take-set (x ∷ xs) zero v = refl
take-set (x ∷ xs) (suc n) v = ap (λ t. x ∷ t) (take-set xs n v)

take-suc :
    (xs : List ℕ) (n : ℕ) → n < length xs → take (suc n) xs ≡ take n xs ++ (get_or xs n 0 ∷ [])
take-suc [] n h = absurd (omega arith)
take-suc (x ∷ xs) zero h = refl
take-suc (x ∷ xs) (suc n) h = ap (λ t. x ∷ t) (take-suc xs n (omega arith))

take_next :
    (xs : List ℕ) (n : ℕ) → n < length xs → take (n + 1) xs ≡ take n xs ++ (get_or xs n 0 ∷ [])
take_next xs n h = let e : n + 1 ≡ suc n = omega arith in rw e (take-suc xs n h)

pub take-take_le : (m n : ℕ) (xs : List ℕ) → m ≤ n → take m (take n xs) ≡ take m xs
take-take_le zero n xs h = refl
take-take_le (suc m) zero xs h = absurd (omega arith)
take-take_le (suc m) (suc n) [] h = refl
take-take_le (suc m) (suc n) (x ∷ xs) h = ap (λ t. x ∷ t) (take-take_le m n xs (omega arith))

pub length-copy_chars :
    (left i : ℕ) (from to : List ℕ) → length (copy_chars left i from to) ≡ length to
unfolding copy_chars
length-copy_chars zero i from to = refl
length-copy_chars (suc left) i from to =
    length-copy_chars left (i + 1) from (set to i (get_or from i 0))
    ∙ length-set to i (get_or from i 0)

-- The copied part is that of the source.
take-copy_chars :
    (left i : ℕ) (from to : List ℕ)
    → i + left ≤ length from
    → i + left ≤ length to
    → take i to ≡ take i from
    → take (i + left) (copy_chars left i from to) ≡ take (i + left) from
unfolding copy_chars
take-copy_chars zero i from to a b h = let end : i + 0 ≡ i = omega arith in rw end h
take-copy_chars (suc left) i from to a b h =
    let v = get_or from i 0 in
    let next : i + suc left ≡ i + 1 + left = omega arith in
    let sized = length-set to i v in
    let one : take (i + 1) (set to i v) ≡ take (i + 1) from =
      take_next (set to i v) i (omega arith)
      ∙ (ap₂ (λ xs x. xs ++ (x ∷ [])) (take-set to i v ∙ h) (get_or-set_self to i v 0 (omega arith))
          ∙ sym (take_next from i (omega arith))) in
    rw next (take-copy_chars left (i + 1) from (set to i v) (omega arith) (omega arith) one)

-- The start of an array, with a zero behind it, holds the same text.
pub take-set_copy :
    (n : ℕ) (from to : List ℕ)
    → n ≤ length from
    → n ≤ length to
    → take n (set (copy_chars n 0 from to) n 0) ≡ take n from
take-set_copy n from to a b =
    let e : 0 + n ≡ n = omega arith in
    take-set (copy_chars n 0 from to) n 0
    ∙ subst (λ m. take m (copy_chars n 0 from to) ≡ take m from) e
        (take-copy_chars n 0 from to (omega arith) (omega arith) refl)

-- A command is kept as it was typed: the arrow key for the last command brings back the text of the
-- line that was entered.
pub shell_history_up-remember :
    (l : Line)
    → IsLine l
    → 0 < l.input_len
    → text (shell_history_up (clear_line (remember l))) ≡ text l
unfolding text shell_history_up clear_line remember
shell_history_up-remember l v h =
    let n = l.input_len in
    let kept = set (copy_chars n 0 l.input l.history) n 0 in
    let input_size_in = v.input_size_in in
    let history_size_in = v.history_size_in in
    let input_in = v.input_in in
    let kept_size : length kept ≡ 256 =
      length-set (copy_chars n 0 l.input l.history) n 0
      ∙ (length-copy_chars n 0 l.input l.history ∙ v.history_size_in) in
    let cleared_size : length (set l.input 0 0) ≡ 256 = length-set l.input 0 0 ∙ v.input_size_in in
    rw (ne→== n 0 (ground arith)) (
      take-set_copy n kept (set l.input 0 0) (omega arith) (omega arith)
      ∙ take-set_copy n l.input l.history (omega arith) (omega arith))

-- A character put behind a text, and the zero behind it.
pub take-typed :
    (xs : List ℕ) (n c : ℕ)
    → n < length xs
    → take (n + 1) (set (set xs n c) (n + 1) 0) ≡ take n xs ++ (c ∷ [])
take-typed xs n c h =
    let sized = length-set xs n c in
    take-set (set xs n c) (n + 1) 0
    ∙ (take_next (set xs n c) n (omega arith)
        ∙ ap₂ (λ ys x. ys ++ (x ∷ [])) (take-set xs n c) (get_or-set_self xs n c 0 h))

-- What a key adds to the text.
pub text-type_char :
    (c : ℕ) (l : Line) → IsLine l → l.input_len < 255 → text (type_char c l) ≡ text l ++ (c ∷ [])
unfolding text type_char
text-type_char c l v h =
    let size = v.input_size_in in
    rw (lt→ltb l.input_len 255 h) (take-typed l.input l.input_len c (omega arith))

-- What a backspace takes off again.
pub text-erase_char : (l : Line) → IsLine l → text (erase_char l) ≡ take (l.input_len - 1) (text l)
unfolding text erase_char
text-erase_char l v =
    let n = l.input_len in
    elim (Bool-cases (ltb 0 n)) [
      | inl e ↦
          let less : n - 1 ≤ n = omega arith in
          rw e (take-set l.input (n - 1) 0 ∙ sym (take-take_le (n - 1) n l.input less))
      | inr e ↦ let none_left : n ≡ 0 = ground (arith, e) in rw (e, none_left) refl
    ]

-- The command that is run is the text of the line.
pub c_string-text : (l : Line) → IsLine l → c_string l.input ≡ text l
unfolding text
c_string-text l v =
    let size = v.input_size_in in
    let input_in = v.input_in in c_string-take l.input l.input_len (omega arith) v.ends v.no_zero
