-- ===== src/Base/Bytes.antt =====
-- Go strings as byte sequences: comparison, strings.CutPrefix, and string literals.
use Prim.Native.Char.{code}
use Prim.Native.String.{String}
use winsvr.Base.{
  ℕ, ◌≡◌, ◌↔◌, refl, Bool, true, false, ◌&&◌, Option, none, some, List, [], ◌∷◌, ◌++◌, arith, ◌==◌,
  if◌then◌else◌,
}

abbrev pub Bytes : Type 0
Bytes = List ℕ

-- The bytes of an ASCII literal.
abbrev pub text : String → Bytes
text String.[] = []
text (String.◌∷◌ c s) = code c ∷ text s

unfoldable pub bytes_eq : Bytes → Bytes → Bool
bytes_eq [] [] = true
bytes_eq [] (y ∷ ys) = false
bytes_eq (x ∷ xs) [] = false
bytes_eq (x ∷ xs) (y ∷ ys) = x == y && bytes_eq xs ys

bytes_eq_sound : (xs ys : Bytes) → bytes_eq xs ys ≡ true → xs ≡ ys
unfolding bytes_eq
bytes_eq_sound [] [] h = refl
bytes_eq_sound [] (y ∷ ys) h = cc
bytes_eq_sound (x ∷ xs) [] h = cc
bytes_eq_sound (x ∷ xs) (y ∷ ys) h = ground (arith, bytes_eq_sound xs ys)

pub bytes_eq_refl : (xs : Bytes) → bytes_eq xs xs ≡ true
unfolding bytes_eq
bytes_eq_refl [] = refl
bytes_eq_refl (x ∷ xs) = ground (arith, bytes_eq_refl xs)

pub bytes_eq_iff : (xs ys : Bytes) → (bytes_eq xs ys ≡ true) ↔ (xs ≡ ys)
bytes_eq_iff xs ys = (bytes_eq_sound xs ys, λ p. rw p (bytes_eq_refl ys))

-- strings.CutPrefix(s, prefix): the rest, if `prefix` stands in front.
unfoldable pub cut_prefix : Bytes → Bytes → Option Bytes
cut_prefix s [] = some s
cut_prefix [] (p ∷ ps) = none
cut_prefix (c ∷ s) (p ∷ ps) = if c == p then cut_prefix s ps else none

pub cut_prefix-append : (prefix s : Bytes) → cut_prefix (prefix ++ s) prefix ≡ some s
unfolding cut_prefix
cut_prefix-append [] s = refl
cut_prefix-append (p ∷ ps) s = ground (arith, cut_prefix-append ps s)

pub cut_prefix_sound :
    (s prefix rest : Bytes) → cut_prefix s prefix ≡ some rest → s ≡ prefix ++ rest
unfolding cut_prefix
cut_prefix_sound s [] rest h = ground arith
cut_prefix_sound [] (p ∷ ps) rest h = cc
cut_prefix_sound (c ∷ s) (p ∷ ps) rest h = ground (arith, cut_prefix_sound s ps rest)
