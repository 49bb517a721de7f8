-- ===== src/Elevation/Choice.antt =====
-- When elevation.go finds an elevated token, and when it tries a launch again.
use winsvr.Base.{ℕ, ◌≡◌, ◌≢◌, ◌↔◌, Bool, true, false, arith}
use winsvr.Go.Error.{Error, err_elevation_required, errors_is}
use winsvr.Elevation.{
  elevation_full, elevation_limited, elevate_impossible, elevate_with_linked, choose_elevation,
  should_auto_elevate,
}

-- An elevated launch is impossible exactly for a token that is not elevated, of a kind that is
-- neither full nor limited; the linked token is fetched exactly for a limited one.
pub choose_elevation_exact :
    (kind : ℕ) (token_is_elevated : Bool)
    → ((choose_elevation kind token_is_elevated ≡ elevate_impossible)
        ↔ ((kind ≢ elevation_full) × (kind ≢ elevation_limited) × (token_is_elevated ≡ false)))
      × ((choose_elevation kind token_is_elevated ≡ elevate_with_linked)
          ↔ (kind ≡ elevation_limited))
unfolding choose_elevation
choose_elevation_exact kind elevated = ground arith

-- A failed launch is tried again elevated exactly if Windows asked for elevation, the launch was not
-- elevated, and the retry is not disabled.
pub should_auto_elevate_exact :
    (e : Error) (elevated disabled : Bool)
    → (should_auto_elevate e elevated disabled ≡ true)
      ↔ ((elevated ≡ false) × (disabled ≡ false) × (errors_is e err_elevation_required ≡ true))
unfolding should_auto_elevate
should_auto_elevate_exact e elevated disabled = ground arith
