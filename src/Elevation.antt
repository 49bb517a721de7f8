-- ===== src/Elevation.antt =====
-- elevation.go: how to get an elevated token, and when a failed launch is tried again elevated.
pub mod Choice
use winsvr.Base.{ℕ, Bool, true, false, ◌||◌, ◌==◌, if◌then◌else◌}
use winsvr.Go.Error.{Error, err_elevation_required, errors_is}

-- TOKEN_ELEVATION_TYPE of winnt.h.
abbrev pub elevation_default : ℕ
elevation_default = 1

abbrev pub elevation_full : ℕ
elevation_full = 2

abbrev pub elevation_limited : ℕ
elevation_limited = 3

pub data ElevationChoice : Type 0 where
  elevate_impossible elevate_with_token elevate_with_linked : ElevationChoice

unfoldable pub choose_elevation : ℕ → Bool → ElevationChoice
choose_elevation kind token_is_elevated =
    if kind == elevation_full
    then elevate_with_token
    else if kind == elevation_limited
    then elevate_with_linked
    else if token_is_elevated
    then elevate_with_token
    else elevate_impossible

unfoldable pub should_auto_elevate : Error → Bool → Bool → Bool
should_auto_elevate err already_elevated disabled =
    if already_elevated || disabled then false else errors_is err err_elevation_required
