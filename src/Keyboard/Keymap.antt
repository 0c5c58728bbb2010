-- ===== src/Keyboard/Keymap.antt =====
-- drivers/keyboard/keyboard_mapping.c: what a scan code stands for, as the values of `size_t`s; -1 is
-- 0xffffffff. Each table is listed by scan code; a code that no initialiser names holds 0.
use panda_os.Base.{ℕ, List, [], ◌∷◌, ◌==◌, if◌then◌else◌, get_or, ltb, ◌-◌}

-- A key that stands for no character.
abbrev none_key : ℕ
none_key = 0xffff_ffff

abbrev base_table : List ℕ
base_table =
    none_key ∷ 27 ∷ b'1' ∷ b'2' ∷ b'3' ∷ b'4' ∷ b'5' ∷ b'6' ∷ b'7' ∷ b'8' ∷ b'9' ∷ b'0' ∷ 39 ∷ 141
    ∷ 8 ∷ 9 ∷ b'q' ∷ b'w' ∷ b'e' ∷ b'r' ∷ b't' ∷ b'y' ∷ b'u' ∷ b'i' ∷ b'o' ∷ b'p' ∷ 138 ∷ 43 ∷ 13
    ∷ none_key ∷ b'a' ∷ b's' ∷ b'd' ∷ b'f' ∷ b'g' ∷ b'h' ∷ b'j' ∷ b'k' ∷ b'l' ∷ 149 ∷ 133 ∷ 92
    ∷ none_key ∷ 151 ∷ b'z' ∷ b'x' ∷ b'c' ∷ b'v' ∷ b'b' ∷ b'n' ∷ b'm' ∷ 44 ∷ 46 ∷ 45 ∷ none_key ∷ 42
    ∷ none_key ∷ 32 ∷ none_key ∷ none_key ∷ none_key ∷ none_key ∷ none_key ∷ none_key ∷ none_key
    ∷ none_key ∷ none_key ∷ none_key ∷ none_key ∷ none_key ∷ none_key ∷ none_key ∷ none_key
    ∷ none_key ∷ 45 ∷ none_key ∷ none_key ∷ none_key ∷ 43 ∷ none_key ∷ none_key ∷ none_key
    ∷ none_key ∷ none_key ∷ none_key ∷ none_key ∷ 60 ∷ none_key ∷ none_key ∷ []

-- `keymap.base[i]`; the key of the keypad's division has the code 0xe035.
unfoldable pub base : ℕ → ℕ
base i = if i == 0xe035 then 47 else get_or base_table i 0

abbrev shift_table : List ℕ
shift_table =
    none_key ∷ none_key ∷ 33 ∷ 34 ∷ 156 ∷ 36 ∷ 37 ∷ 38 ∷ 47 ∷ 40 ∷ 41 ∷ 61 ∷ 63 ∷ 94 ∷ none_key
    ∷ none_key ∷ b'Q' ∷ b'W' ∷ b'E' ∷ b'R' ∷ b'T' ∷ b'Y' ∷ b'U' ∷ b'I' ∷ b'O' ∷ b'P' ∷ 130 ∷ 42
    ∷ none_key ∷ none_key ∷ b'A' ∷ b'S' ∷ b'D' ∷ b'F' ∷ b'G' ∷ b'H' ∷ b'J' ∷ b'K' ∷ b'L' ∷ 128 ∷ 167
    ∷ 124 ∷ none_key ∷ none_key ∷ b'Z' ∷ b'X' ∷ b'C' ∷ b'V' ∷ b'B' ∷ b'N' ∷ b'M' ∷ 59 ∷ 58 ∷ 95
    ∷ none_key ∷ 42 ∷ none_key ∷ 32 ∷ none_key ∷ none_key ∷ none_key ∷ none_key ∷ none_key
    ∷ none_key ∷ none_key ∷ none_key ∷ none_key ∷ none_key ∷ none_key ∷ none_key ∷ none_key
    ∷ none_key ∷ none_key ∷ none_key ∷ 45 ∷ none_key ∷ none_key ∷ none_key ∷ 43 ∷ none_key
    ∷ none_key ∷ none_key ∷ none_key ∷ none_key ∷ none_key ∷ none_key ∷ 62 ∷ none_key ∷ none_key
    ∷ []

-- `keymap.shift[i]`; the key of the keypad's division has the code 0xe035.
unfoldable pub shift : ℕ → ℕ
shift i = if i == 0xe035 then 47 else get_or shift_table i 0

-- `keymap.numlock[i]`, from the code 0x47 on.
abbrev numlock_table : List ℕ
numlock_table =
    b'7' ∷ b'8' ∷ b'9' ∷ 0 ∷ b'4' ∷ b'5' ∷ b'6' ∷ 0 ∷ b'1' ∷ b'2' ∷ b'3' ∷ b'0' ∷ 46 ∷ []

unfoldable pub numlock : ℕ → ℕ
numlock i = if ltb i 0x47 then 0 else get_or numlock_table (i - 0x47) 0
