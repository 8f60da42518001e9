-- ===== src/Drivers/Keyboard.antt =====
-- drivers/keyboard.c: from scancodes to the calls of the shell.
use chris_os.Base.{ℕ, ◌+◌, ◌-◌, ◌%◌, Bool, true, false, not, ◌&&◌, ◌||◌, Option, none, some}
use chris_os.Base.{List, [], ◌∷◌, ◌==◌, leb, if◌then◌else◌, get_or}

-- The characters of the keys without and with shift, 0 for a key that has none.
abbrev pub sc_normal : List ℕ
sc_normal =
    0 ∷ 0 ∷ 49 ∷ 50 ∷ 51 ∷ 52 ∷ 53 ∷ 54 ∷ 55 ∷ 56 ∷ 57 ∷ 48 ∷ 45 ∷ 61 ∷ 0 ∷ 0 ∷ 113 ∷ 119 ∷ 101
    ∷ 114 ∷ 116 ∷ 121 ∷ 117 ∷ 105 ∷ 111 ∷ 112 ∷ 91 ∷ 93 ∷ 0 ∷ 0 ∷ 97 ∷ 115 ∷ 100 ∷ 102 ∷ 103 ∷ 104
    ∷ 106 ∷ 107 ∷ 108 ∷ 59 ∷ 39 ∷ 96 ∷ 0 ∷ 92 ∷ 122 ∷ 120 ∷ 99 ∷ 118 ∷ 98 ∷ 110 ∷ 109 ∷ 44 ∷ 46 ∷ 47
    ∷ 0 ∷ 42 ∷ 0 ∷ 32 ∷ []

abbrev pub sc_shift : List ℕ
sc_shift =
    0 ∷ 0 ∷ 33 ∷ 64 ∷ 35 ∷ 36 ∷ 37 ∷ 94 ∷ 38 ∷ 42 ∷ 40 ∷ 41 ∷ 95 ∷ 43 ∷ 0 ∷ 0 ∷ 81 ∷ 87 ∷ 69 ∷ 82
    ∷ 84 ∷ 89 ∷ 85 ∷ 73 ∷ 79 ∷ 80 ∷ 123 ∷ 125 ∷ 0 ∷ 0 ∷ 65 ∷ 83 ∷ 68 ∷ 70 ∷ 71 ∷ 72 ∷ 74 ∷ 75 ∷ 76
    ∷ 58 ∷ 34 ∷ 126 ∷ 0 ∷ 124 ∷ 90 ∷ 88 ∷ 67 ∷ 86 ∷ 66 ∷ 78 ∷ 77 ∷ 60 ∷ 62 ∷ 63 ∷ 0 ∷ 42 ∷ 0 ∷ 32
    ∷ []

pub record Keyboard : Type 0 where
  pub shift_held : Bool
  pub caps_lock : Bool
  pub ext_pending : Bool

-- A call of the shell.
pub data Event : Type 0 where
  history_up : Event
  history_down : Event
  cursor_left : Event
  cursor_right : Event
  character : ℕ → Event

-- The arrow keys behind the prefix 0xE0.
unfoldable pub extended : ℕ → Option Event
extended code =
    if code == 0x48
    then some history_up
    else if code == 0x50
    then some history_down
    else if code == 0x4B
    then some cursor_left
    else if code == 0x4D
    then some cursor_right
    else none

-- With caps lock on, the case of a letter is the other one.
unfoldable pub swap_case : ℕ → ℕ
swap_case c =
    if leb b'a' c && leb c b'z' then c - 32 else if leb b'A' c && leb c b'Z' then c + 32 else c

unfoldable pub table_char : Keyboard → ℕ → ℕ
table_char k code = get_or (if k.shift_held then sc_shift else sc_normal) code 0

-- What a key of the main block types when it is pressed.
unfoldable pub key_char : Keyboard → ℕ → Option Event
key_char k code =
    let c = table_char k code in
    if code == 0x0E
    then some (character 8)
    else if code == 0x1C
    then some (character 10)
    else if code == 0x0F
    then some (character 9)
    else if leb 58 code
    then none
    else if c == 0
    then none
    else some (character (if k.caps_lock then swap_case c else c))

-- `keyboard_handler` for the scancode `sc` that the port answers.
unfoldable pub keyboard_handler : Keyboard → ℕ → Keyboard × Option Event
keyboard_handler k sc =
    let released = leb 0x80 sc in
    let code = sc % 0x80 in
    if sc == 0xE0
    then (record k { ext_pending = true }, none)
    else if k.ext_pending
    then (record k { ext_pending = false }, if released then none else extended code)
    else if code == 0x2A || code == 0x36
    then (record k { shift_held = not released }, none)
    else if code == 0x3A && not released
    then (record k { caps_lock = not k.caps_lock }, none)
    else if released
    then (k, none)
    else (k, key_char k code)
