-- ===== src/Base/Decimal.antt =====
-- strconv.FormatUint(n, 10) and strconv.ParseUint(s, 10, 32) of Go's standard library, and the
-- round trip between them.
use winsvr.Base.{
  ℕ, zero, suc, ◌+◌, ◌-◌, ◌*◌, ◌/◌, ◌%◌, ◌^◌, ◌≤◌, ◌<◌, ◌≡◌, ◌≢◌, ◌∙◌, refl, Option, none, some,
  ◌||◌, [], ◌∷◌, arith, ltb, leb, if◌then◌else◌,
}
use winsvr.Base.Bytes.{Bytes}

-- `fuel` bounds the digits; `suc n` is enough for `n`.
emit_digits : ℕ → ℕ → Bytes → Bytes
emit_digits zero n out = out
emit_digits (suc fuel) n out =
    let rest = emit_digits fuel (n / 10) ((b'0' + n % 10) ∷ out) in
    if ltb n 10 then (b'0' + n) ∷ out else rest

unfoldable pub format_uint : ℕ → Bytes
unfolding emit_digits
format_uint n = emit_digits (suc n) n []

abbrev pub max_uint32 : ℕ
max_uint32 = 2 ^ 32 - 1

-- The loop of ParseUint, in uint64: a digit, the cutoff test, and the two overflow tests.
parse_digits : Bytes → ℕ → Option ℕ
parse_digits [] n = some n
parse_digits (c ∷ s) n =
    let shifted = n * 10 in
    let n1 = (shifted + (c - b'0')) % 2 ^ 64 in
    if ltb c b'0' || ltb b'9' c
    then none
    else if leb (2 ^ 64 / 10 + 1) n
    then none
    else if ltb n1 shifted || ltb max_uint32 n1
    then none
    else parse_digits s n1

unfoldable pub parse_uint32 : Bytes → Option ℕ
unfolding parse_digits
parse_uint32 [] = none
parse_uint32 (c ∷ s) = parse_digits (c ∷ s) 0

parse_digits-le :
    (s : Bytes) (n r : ℕ) → n ≤ max_uint32 → parse_digits s n ≡ some r → r ≤ max_uint32
unfolding parse_digits
parse_digits-le [] n r fits h = ground arith
parse_digits-le (c ∷ s) n r fits h =
    ground (arith, parse_digits-le s ((n * 10 + (c - b'0')) % 2 ^ 64) r)

pub parse_uint32-le : (s : Bytes) (r : ℕ) → parse_uint32 s ≡ some r → r ≤ max_uint32
unfolding parse_uint32
parse_uint32-le [] r h = ground arith
parse_uint32-le (c ∷ s) r h = parse_digits-le (c ∷ s) 0 r (omega arith) h

-- Reading the last digit of `n` behind the others gives `n`.
parse_last :
    (n : ℕ) (out : Bytes)
    → n ≤ max_uint32
    → parse_digits ((b'0' + n % 10) ∷ out) (n / 10) ≡ parse_digits out n
unfolding parse_digits
parse_last n out h = ground arith

parse-emit :
    (fuel n : ℕ) (out : Bytes)
    → n < fuel
    → n ≤ max_uint32
    → parse_digits (emit_digits fuel n out) 0 ≡ parse_digits out n
unfolding emit_digits
parse-emit zero n out lt h = absurd (omega arith)
parse-emit (suc fuel) n out lt h =
    grind (arith, parse_last n out h, parse-emit fuel (n / 10) ((b'0' + n % 10) ∷ out))

emit-ne-nil : (fuel n : ℕ) (c : ℕ) (out : Bytes) → emit_digits fuel n (c ∷ out) ≢ []
unfolding emit_digits
emit-ne-nil zero n c out h = cc
emit-ne-nil (suc fuel) n c out h =
    ground (arith, emit-ne-nil fuel (n / 10) (b'0' + n % 10) (c ∷ out))

format-ne-nil : (n : ℕ) → format_uint n ≢ []
unfolding format_uint
format-ne-nil n h = ground (arith, emit-ne-nil n (n / 10) (b'0' + n % 10) [])

parse-eq-digits : (s : Bytes) → s ≢ [] → parse_uint32 s ≡ parse_digits s 0
unfolding parse_uint32
parse-eq-digits [] h = absurd (h refl)
parse-eq-digits (c ∷ s) h = refl

-- What FormatUint prints, ParseUint reads back.
pub parse-format : (n : ℕ) → n ≤ max_uint32 → parse_uint32 (format_uint n) ≡ some n
unfolding format_uint parse_digits
parse-format n h =
    parse-eq-digits (format_uint n) (format-ne-nil n) ∙ parse-emit (suc n) n [] (omega arith) h
