-- ===== src/Framework/Text/Cut.antt =====
-- `truncate` of winsvr.go cuts on a character boundary.
use native.Mathlib.Decide.{dec_le}
use winsvr.Base.{
  ℕ, zero, suc, ◌+◌, ◌≤◌, ◌<◌, ◌≡◌, refl, ap, subst, ◌∙◌, true, false, arith, [], ◌∷◌, ◌++◌, length,
  take, length-append, length-take, Bool-cases, inl, inr,
}
use winsvr.Base.Bytes.{Bytes}
use winsvr.Framework.Utf8.{
  rune_size, is_second, is_continuation, all_continue, completes, rest_of_rune, rune_length,
  keep_valid, to_valid_utf8, is_valid_behind, is_valid_utf8,
}
use winsvr.Framework.Text.{truncate, marker}

-- A continuation byte begins no rune.
rune_size-continuation : (c : ℕ) → is_continuation c ≡ true → rune_size c ≡ 0
unfolding rune_size is_continuation
rune_size-continuation c h = ground (arith, h)

-- A second byte is a continuation byte.
second-continues : (b c : ℕ) → is_second b c ≡ true → is_continuation c ≡ true
unfolding is_second is_continuation
second-continues b c h = ground (arith, h)

rune_size-le : (b : ℕ) → rune_size b ≤ 4
unfolding rune_size
rune_size-le b = ground arith

-- The bytes of a rune that is cut short are dropped.
keep-all_continue :
    (n m : ℕ) (s : Bytes) → all_continue n s ≡ true → m ≤ n → keep_valid 0 (take m s) ≡ []
unfolding all_continue keep_valid rune_length rest_of_rune
keep-all_continue n zero s h le = ground arith
keep-all_continue n (suc m) [] h le = ground arith
keep-all_continue zero (suc m) (c ∷ s) h le = absurd (omega (arith, le))
keep-all_continue (suc n) (suc m) (c ∷ s) h le = ground (
  arith,
  h,
  rune_size-continuation c,
  keep-all_continue n m s (ground (arith, h)) (omega (arith, le)),
)

-- Of a rune whose other bytes are `n`, fewer than those remain: all are dropped.
completes-continues : (b n : ℕ) (s : Bytes) → completes b n s ≡ true → all_continue n s ≡ true
unfolding completes all_continue
completes-continues b zero s h = refl
completes-continues b (suc n) [] h = absurd (cc)
completes-continues b (suc n) (c ∷ s) h = ground (arith, h, second-continues b c)

all_continue-take :
    (n m : ℕ) (s : Bytes) → all_continue n s ≡ true → n ≤ m → all_continue n (take m s) ≡ true
unfolding all_continue
all_continue-take zero m s h le = refl
all_continue-take (suc n) m [] h le = absurd (cc)
all_continue-take (suc n) zero (c ∷ s) h le = absurd (omega (arith, le))
all_continue-take (suc n) (suc m) (c ∷ s) h le =
    ground (arith, h, all_continue-take n m s (ground (arith, h)) (omega (arith, le)))

completes-take :
    (b n m : ℕ) (s : Bytes) → completes b n s ≡ true → n ≤ m → completes b n (take m s) ≡ true
unfolding completes
completes-take b zero m s h le = refl
completes-take b (suc n) m [] h le = absurd (cc)
completes-take b (suc n) zero (c ∷ s) h le = absurd (omega (arith, le))
completes-take b (suc n) (suc m) (c ∷ s) h le =
    ground (arith, h, all_continue-take n m s (ground (arith, h)) (omega (arith, le)))

all_continue_short : (n : ℕ) (s : Bytes) → length s < n → all_continue n s ≡ false
unfolding all_continue
all_continue_short zero s lt = absurd (omega (arith, lt))
all_continue_short (suc n) [] lt = refl
all_continue_short (suc n) (c ∷ s) lt = ground (arith, all_continue_short n s (omega (arith, lt)))

completes_short : (b n : ℕ) (s : Bytes) → length s < n → completes b n s ≡ false
unfolding completes
completes_short b zero s lt = absurd (omega (arith, lt))
completes_short b (suc n) [] lt = refl
completes_short b (suc n) (c ∷ s) lt = ground (arith, all_continue_short n s (omega (arith, lt)))

rest_of_rune-suc :
    (b n j : ℕ) (s : Bytes) → rest_of_rune b n s ≡ suc j → (n ≡ suc j) × (completes b j s ≡ true)
unfolding rest_of_rune
rest_of_rune-suc b zero j s h = absurd (omega (arith, h))
rest_of_rune-suc b (suc n) j s h = elim (Bool-cases (completes b n s)) [
  | inl whole ↦
      let same : n ≡ j = ground (arith, h, whole) in
      (ap suc same, subst (λ k. completes b k s ≡ true) same whole)
  | inr short ↦ absurd (ground (arith, h, short))
]

module _ (b j : ℕ) (s : Bytes) (h : rune_length b s ≡ suc j) where
  rune_parts : (rune_size b ≡ suc j) × (completes b j s ≡ true)
  unfolding rune_length
  rune_parts = rest_of_rune-suc b (rune_size b) j s h

  rune_length-le : j ≤ 3
  rune_length-le = omega (arith, rune_parts.0, rune_size-le b)

  rune_length-take : (m : ℕ) → j ≤ m → rune_length b (take m s) ≡ suc j
  unfolding rune_length rest_of_rune
  rune_length-take m le = rw (rune_parts.0, completes-take b j m s rune_parts.1 le) refl

  rune_length-cut : (m : ℕ) → m < j → rune_length b (take m s) ≡ 0
  unfolding rune_length rest_of_rune
  rune_length-cut m lt =
      rw (rune_parts.0, completes_short b j (take m s) (omega (arith, lt, length-take m s))) refl

is_valid_behind-le : (k : ℕ) (s : Bytes) → is_valid_behind k s ≡ true → k ≤ length s
unfolding is_valid_behind
is_valid_behind-le zero s h = omega arith
is_valid_behind-le (suc k) [] h = absurd (cc)
is_valid_behind-le (suc k) (b ∷ s) h = omega (arith, is_valid_behind-le k s h)

-- A valid text cut after `n` bytes keeps its first `m`, which are valid, and loses at most three.
abbrev IsCut : ℕ → ℕ → Bytes → Type 0
IsCut k n s =
    (m : ℕ) × (m ≤ n)
    × (n ≤ m + 3)
    × (is_valid_behind k (take m s) ≡ true)
    × (keep_valid k (take n s) ≡ take m s)

-- The cut falls at a rune of `suc j` bytes: it is dropped, or the cut falls behind it.
IsCut-rune :
    (b j n : ℕ) (s : Bytes)
    → rune_length b s ≡ suc j
    → (j ≤ n → IsCut j n s)
    → IsCut 0 (suc n) (b ∷ s)
unfolding is_valid_behind keep_valid
IsCut-rune b j n s h rest = elim (dec_le j n) [
  | yes le ↦
      let (m, below, near, valid, kept) = rest le in
      let inside : j ≤ m = omega (arith, is_valid_behind-le j (take m s) valid, length-take m s) in
      (
        suc m,
        omega (arith, below),
        omega (arith, near),
        rw (is_valid_behind, rune_length-take b j s h m inside) valid,
        rw (keep_valid, rune_length-take b j s h n le) (ap (λ t. b ∷ t) kept),
      )
  | no less ↦
      let lt : n < j = omega (arith, less) in
      (
        0,
        omega arith,
        omega (arith, rune_length-le b j s h, lt),
        refl,
        rw (keep_valid, rune_length-cut b j s h n lt)
            (keep-all_continue j n s (completes-continues b j s (rune_parts b j s h).1)
              (omega (arith, lt))),
      )
]

-- A valid text that is not empty begins with a rune.
valid_rune :
    (b : ℕ) (s : Bytes)
    → is_valid_behind 0 (b ∷ s) ≡ true
    → (j : ℕ) × (rune_length b s ≡ suc j) × (is_valid_behind j s ≡ true)
unfolding is_valid_behind
valid_rune b s h = go (rune_length b s) refl h
  where
    go :
        (r : ℕ)
        → rune_length b s ≡ r
        → elim r [ zero ↦ false | suc k ↦ is_valid_behind k s ] ≡ true
        → (j : ℕ) × (rune_length b s ≡ suc j) × (is_valid_behind j s ≡ true)
    go zero e v = absurd (cc)
    go (suc j) e v = (j, e, v)

IsCut-behind : (k n : ℕ) (s : Bytes) → is_valid_behind k s ≡ true → k ≤ n → IsCut k n s
unfolding is_valid_behind keep_valid
IsCut-behind (suc k) zero s h le = absurd (omega (arith, le))
IsCut-behind (suc k) (suc n) [] h le = absurd (cc)
IsCut-behind (suc k) (suc n) (b ∷ s) h le =
    let (m, below, near, valid, kept) = IsCut-behind k n s h (omega (arith, le)) in
    (suc m, omega (arith, below), omega (arith, near), valid, ap (λ t. b ∷ t) kept)
IsCut-behind zero zero s h le = (0, omega arith, omega arith, refl, refl)
IsCut-behind zero (suc n) [] h le = (suc n, omega arith, omega arith, refl, refl)
IsCut-behind zero (suc n) (b ∷ s) h le =
    let (j, whole, behind) = valid_rune b s h in
    IsCut-rune b j n s whole (λ below. IsCut-behind j n s behind below)

-- A valid text that is longer than `n` bytes is cut to its first `m` bytes, a valid text again with
-- at most three bytes less than `n`. The mark of the cut stands behind these and on top of `n`: the
-- result has `m` + 15 bytes, which can be more than `n` and more than the text had.
pub truncate_cuts :
    (s : Bytes) (n : ℕ)
    → is_valid_utf8 s ≡ true
    → n < length s
    → (m : ℕ) × (m ≤ n)
      × (n ≤ m + 3)
      × (is_valid_utf8 (take m s) ≡ true)
      × (truncate s n ≡ take m s ++ marker)
      × (length (truncate s n) ≡ m + 15)
unfolding truncate to_valid_utf8 is_valid_utf8
truncate_cuts s n valid long =
    let (m, below, near, good, kept) = IsCut-behind 0 n s valid (omega arith) in
    let cut : truncate s n ≡ take m s ++ marker = ground (arith, long, kept) in
    let bytes : length (truncate s n) ≡ m + 15 =
      ap length cut
      ∙ omega (arith, length-append (take m s) marker, length-take m s, below, long) in
    (m, below, near, good, cut, bytes)
