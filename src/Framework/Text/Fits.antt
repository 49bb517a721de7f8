-- ===== src/Framework/Text/Fits.antt =====
-- What `eventText` of winsvr.go hands to the event log is accepted there.
use winsvr.Base.{
  ℕ, zero, suc, ◌+◌, ◌≤◌, ◌≡◌, ◌≢◌, refl, inl, inr, Bool, false, ◌||◌, arith, Bool-cases, [], ◌∷◌,
  ◌==◌, leb, length, take, length-append, All, All-append, length-take,
}
use winsvr.Base.Bytes.{Bytes, text}
use winsvr.Framework.Utf8.{keep_valid, rune_length, to_valid_utf8}
use winsvr.Framework.Text.{truncate, show_nul, event_text, marker, max_event_len}

abbrev pub IsNotNul : ℕ → Type 0
IsNotNul b = b ≢ 0

All-take : {A : Type 0} (P : A → Type 0) (n : ℕ) (xs : _) → All P xs → All P (take {A = A} n xs)
All-take P zero xs h = tt
All-take P (suc n) [] h = tt
All-take P (suc n) (x ∷ xs) (hx, hs) = (hx, All-take P n xs hs)

length-keep_valid : (k : ℕ) (s : Bytes) → length (keep_valid k s) ≤ length s
unfolding keep_valid
length-keep_valid k [] = ground arith
length-keep_valid (suc k) (b ∷ s) = ground (arith, length-keep_valid k s)
length-keep_valid zero (b ∷ s) =
    elim (rune_length b s)
      as (λ r.
        length (elim r [ zero ↦ keep_valid zero s | suc k ↦ b ∷ keep_valid k s ])
        ≤ length (b ∷ s)) [
          | zero ↦ omega (arith, length-keep_valid zero s)
          | suc k ↦ omega (arith, length-keep_valid k s)
        ]

All-keep_valid : (P : ℕ → Type 0) (k : ℕ) (s : Bytes) → All P s → All P (keep_valid k s)
unfolding keep_valid
All-keep_valid P k [] h = tt
All-keep_valid P (suc k) (b ∷ s) (hb, hs) = (hb, All-keep_valid P k s hs)
All-keep_valid P zero (b ∷ s) (hb, hs) =
    elim (rune_length b s)
      as (λ r. All P (elim r [ zero ↦ keep_valid zero s | suc k ↦ b ∷ keep_valid k s ])) [
        | zero ↦ All-keep_valid P zero s hs
        | suc k ↦ (hb, All-keep_valid P k s hs)
      ]

has_nul : Bytes → Bool
has_nul [] = false
has_nul (b ∷ s) = b == 0 || has_nul s

-- The test decides it, on a concrete text.
All-from_test : (s : Bytes) → has_nul s ≡ false → All IsNotNul s
unfolding has_nul
All-from_test [] h = tt
All-from_test (b ∷ s) h = (ground (arith, h), All-from_test s (ground (arith, h)))

All-nul_shown : All IsNotNul (text "\\x00")
unfolding has_nul
All-nul_shown = All-from_test (text "\\x00") refl

All-marker : All IsNotNul marker
unfolding has_nul
All-marker = All-from_test marker refl

All-show_nul : (s : Bytes) → All IsNotNul (show_nul s)
unfolding show_nul
All-show_nul [] = tt
All-show_nul (b ∷ s) = elim (Bool-cases (b == 0)) [
  | inl nul ↦
      rw nul (All-append IsNotNul (text "\\x00") (show_nul s) All-nul_shown (All-show_nul s))
  | inr other ↦ rw other ((λ e. ground (arith, other)), All-show_nul s)
]

All-truncate : (s : Bytes) (n : ℕ) → All IsNotNul s → All IsNotNul (truncate s n)
unfolding truncate to_valid_utf8
All-truncate s n h = elim (Bool-cases (leb (length s) n)) [
  | inl short ↦ rw short h
  | inr long ↦ rw long (
      All-append IsNotNul _ marker (All-keep_valid IsNotNul 0 _ (All-take IsNotNul n s h))
        All-marker)
]

length-truncate : (s : Bytes) (n : ℕ) → length (truncate s n) ≤ n + length marker
unfolding truncate to_valid_utf8
length-truncate s n = ground (
  arith,
  length-append (keep_valid 0 (take n s)) marker,
  length-keep_valid 0 (take n s),
  length-take n s,
)

-- The text of an event has no NUL, and at most maxEventLen bytes and those that mark the cut: fewer
-- than the 31,839 characters that ReportEvent takes.
pub event_text_fits :
    (s : Bytes)
    → All IsNotNul (event_text s)
      × (length (event_text s) ≤ max_event_len + length marker)
      × (max_event_len + length marker ≤ 31838)
unfolding event_text
event_text_fits s = (
  All-truncate (show_nul s) max_event_len (All-show_nul s),
  length-truncate (show_nul s) max_event_len,
  omega arith,
)
