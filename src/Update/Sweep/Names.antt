-- ===== src/Update/Sweep/Names.antt =====
-- Which names isGeneratedTemp of update.go takes for a download's, and that neither the payload nor
-- the state file has such a name.
use winsvr.Base.{
  ℕ, ◌≤◌, ◌≡◌, refl, ap, ◌↔◌, inl, inr, true, none, ◌++◌, [], ◌∷◌, arith, Option-cases, length,
  length-append,
}
use winsvr.Base.Bytes.{
  Bytes, text, bytes_eq_iff, bytes_eq_refl, cut_prefix, cut_prefix-append, cut_prefix_sound,
}
use winsvr.Base.Decimal.{format_uint, parse_uint32, max_uint32, parse_uint32-le, parse-format}
use winsvr.Update.Config.{Updater, temp_prefix, state_path}
use winsvr.Update.Sweep.{is_generated_temp}

generated_form :
    (name prefix : Bytes)
    → is_generated_temp name prefix ≡ true
    → (n : ℕ) × (n ≤ max_uint32) × (name ≡ prefix ++ format_uint n)
unfolding is_generated_temp
generated_form name prefix h = elim (Option-cases (cut_prefix name prefix)) [
  | inl missing ↦ absurd (ground (arith, missing))
  | inr (suffix, cut) ↦ elim (Option-cases (parse_uint32 suffix)) [
    | inl bad ↦ absurd (ground (arith, cut, bad))
    | inr (n, parsed) ↦ (
      n,
      parse_uint32-le suffix n parsed,
      ground (
        arith,
        cut_prefix_sound name prefix suffix cut,
        bytes_eq_iff (format_uint n) suffix,
        ap (λ s. prefix ++ s) ((bytes_eq_iff (format_uint n) suffix).0 (ground arith)),
      ),
    )
  ]
]

form_generated :
    (prefix : Bytes) (n : ℕ)
    → n ≤ max_uint32
    → is_generated_temp (prefix ++ format_uint n) prefix ≡ true
unfolding is_generated_temp
form_generated prefix n h = ground (
  arith,
  cut_prefix-append prefix (format_uint n),
  parse-format n h,
  bytes_eq_refl (format_uint n),
)

-- A name is taken for a download's exactly if it is the prefix followed by a uint32 in canonical
-- decimal.
pub generated_iff :
    (name prefix : Bytes)
    → (is_generated_temp name prefix ≡ true)
      ↔ ((n : ℕ) × (n ≤ max_uint32) × (name ≡ prefix ++ format_uint n))
generated_iff name prefix =
    (generated_form name prefix, λ (n, h, e). rw e (form_generated prefix n h))

not-own-prefix : (base rest : Bytes) → base ≡ (base ++ text ".tmp-") ++ rest → ⊥
not-own-prefix base rest e = omega (
  arith,
  ap (λ (s : Bytes). length s) e,
  length-append (base ++ text ".tmp-") rest,
  length-append base (text ".tmp-"),
)

-- The payload's own name is not in front of a download's.
pub cut-payload : (u : Updater) → cut_prefix u.path.base (temp_prefix u) ≡ none
unfolding temp_prefix
cut-payload u = elim (Option-cases (cut_prefix u.path.base (u.path.base ++ text ".tmp-"))) [
  | inl missing ↦ missing
  | inr (rest, cut) ↦ absurd (not-own-prefix u.path.base rest (cut_prefix_sound _ _ rest cut))
]

cut-common : (s t r : Bytes) → cut_prefix (s ++ t) (s ++ r) ≡ cut_prefix t r
unfolding cut_prefix
cut-common [] t r = refl
cut-common (c ∷ s) t r = ground (arith, cut-common s t r)

-- Nor is that of the state file.
pub cut-state : (u : Updater) → cut_prefix (state_path u).base (temp_prefix u) ≡ none
unfolding temp_prefix state_path cut_prefix
cut-state u = cut-common u.path.base (text ".update.json") (text ".tmp-")
