-- ===== src/Update/Checksum.antt =====
-- hash/crc64 with the ECMA polynomial, and fileCRC64 of update.go.
use Prim.Native.Nat.{bit_xor}
use winsvr.Base.{ℕ, zero, suc, ◌-◌, ◌/◌, ◌%◌, ◌^◌, ◌≡◌, refl, [], ◌∷◌, ◌==◌, if◌then◌else◌}
use winsvr.Base.Bytes.{Bytes, text}
use winsvr.Go.World.{Env, FilePath}
use winsvr.Go.Exec.{Exec, ◌>>=◌, pure}
use winsvr.Go.Os.{os_open, read_all}

-- The polynomial, bits reversed, as hash/crc64 writes it.
abbrev ecma : ℕ
ecma = 0xC96C5795D7870F42

all_ones : ℕ
all_ones = 2 ^ 64 - 1

-- One bit, and the eight bits of a byte: an entry of the table.
shift_bits : ℕ → ℕ → ℕ
shift_bits zero crc = crc
shift_bits (suc n) crc = shift_bits n (if crc % 2 == 1 then bit_xor (crc / 2) ecma else crc / 2)

crc_byte : ℕ → ℕ → ℕ
unfolding shift_bits
crc_byte crc b = bit_xor (shift_bits 8 (bit_xor (crc % 256) b)) (crc / 256)

crc_bytes : ℕ → Bytes → ℕ
crc_bytes crc [] = crc
crc_bytes crc (b ∷ bs) = crc_bytes (crc_byte crc b) bs

-- The checksum of a byte string: Go complements the register before and after.
unfoldable pub crc64 : Bytes → ℕ
unfolding crc_bytes crc_byte all_ones
crc64 s = bit_xor (crc_bytes all_ones s) all_ones

module _ (env : Env) where
  unfoldable pub file_crc64 : FilePath → Exec ℕ
  file_crc64 path = do n ← os_open env path; content ← read_all env n; pure (crc64 content)

-- The check value of CRC-64/XZ, which is this checksum.
crc64_check : crc64 (text "123456789") ≡ 0x995DC9BBDF1939FA
unfolding crc64
crc64_check = refl

-- The checksum of an empty file is what an absent checksum reads as.
crc64_empty : crc64 [] ≡ 0
unfolding crc64
crc64_empty = refl
