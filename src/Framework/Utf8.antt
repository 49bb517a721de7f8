-- ===== src/Framework/Utf8.antt =====
-- Go's unicode/utf8, as far as strings.ToValidUTF8(s, "") uses it.
use winsvr.Base.{ℕ, zero, suc, Bool, true, false, ◌&&◌, [], ◌∷◌, ◌==◌, ltb, leb, if◌then◌else◌}
use winsvr.Base.Bytes.{Bytes}

-- The bytes of the rune that begins with `b`, by that byte alone; 0 if none does.
unfoldable pub rune_size : ℕ → ℕ
rune_size b =
    if ltb b 0x80
    then 1
    else if ltb b 0xC2
    then 0
    else if ltb b 0xE0
    then 2
    else if ltb b 0xF0
    then 3
    else if ltb b 0xF5
    then 4
    else 0

-- The second byte of a rune that begins with `b`: shorter forms, surrogates and runes over the last
-- are ruled out here.
unfoldable pub is_second : ℕ → ℕ → Bool
is_second b c =
    leb (if b == 0xE0 then 0xA0 else if b == 0xF0 then 0x90 else 0x80) c
    && leb c (if b == 0xED then 0x9F else if b == 0xF4 then 0x8F else 0xBF)

unfoldable pub is_continuation : ℕ → Bool
is_continuation c = leb 0x80 c && leb c 0xBF

unfoldable pub all_continue : ℕ → Bytes → Bool
all_continue zero s = true
all_continue (suc n) [] = false
all_continue (suc n) (c ∷ s) = is_continuation c && all_continue n s

-- The `n` bytes behind `b` complete its rune.
unfoldable pub completes : ℕ → ℕ → Bytes → Bool
completes b zero s = true
completes b (suc n) [] = false
completes b (suc n) (c ∷ s) = is_second b c && all_continue n s

-- The bytes behind `b` that belong to its rune, if there is a whole rune.
unfoldable pub rest_of_rune : ℕ → ℕ → Bytes → ℕ
rest_of_rune b zero s = 0
rest_of_rune b (suc n) s = if completes b n s then suc n else 0

unfoldable pub rune_length : ℕ → Bytes → ℕ
rune_length b s = rest_of_rune b (rune_size b) s

-- The text without the bytes that belong to no rune; `k` bytes of the current rune are left.
unfoldable pub keep_valid : ℕ → Bytes → Bytes
keep_valid k [] = []
keep_valid (suc k) (b ∷ s) = b ∷ keep_valid k s
keep_valid zero (b ∷ s) = elim (rune_length b s) [
  | zero ↦ keep_valid zero s
  | suc k ↦ b ∷ keep_valid k s
]

unfoldable pub to_valid_utf8 : Bytes → Bytes
to_valid_utf8 s = keep_valid 0 s

-- utf8.Valid, behind the first byte of a rune of which `k` bytes are left.
unfoldable pub is_valid_behind : ℕ → Bytes → Bool
is_valid_behind zero [] = true
is_valid_behind (suc k) [] = false
is_valid_behind (suc k) (b ∷ s) = is_valid_behind k s
is_valid_behind zero (b ∷ s) = elim (rune_length b s) [ zero ↦ false | suc k ↦ is_valid_behind k s ]

unfoldable pub is_valid_utf8 : Bytes → Bool
is_valid_utf8 s = is_valid_behind 0 s
