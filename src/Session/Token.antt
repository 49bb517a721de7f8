-- ===== src/Session/Token.antt =====
-- userToken of session_windows.go, with elevationType and errnoText.
use winsvr.Base.{
  ℕ, zero, suc, ◌+◌, ◌-◌, ◌/◌, ◌%◌, ◌^◌, Bool, true, false, Option, none, some, [], ◌∷◌, ◌++◌, ltb,
  if◌then◌else◌,
}
use winsvr.Base.Int.{pos}
use winsvr.Base.Bytes.{Bytes, text}
use winsvr.Base.Decimal.{format_uint}
use winsvr.Go.Error.{
  Error, Cause, errno, sentinel, errorf, wrap, wrap_both, bytes, number, errors_is,
  err_no_user_session, err_no_elevated_token,
}
use winsvr.Go.World.{next, Resource, of_token}
use winsvr.Go.Exec.{Exec, ◌>>=◌, fail}
use winsvr.Elevation.{
  ElevationChoice, elevate_impossible, elevate_with_token, elevate_with_linked, choose_elevation,
}
use winsvr.Session.Windows.{
  Windows, query_user_token, get_elevation_type, get_linked_token, duplicate_token, acquire, read,
  closing, named, privilege_not_held,
}

hex_digit : ℕ → ℕ
hex_digit n = if ltb n 10 then b'0' + n else b'A' + (n - 10)

-- `fuel` bounds the digits; 8 are enough for 32 bits.
hex_digits : ℕ → ℕ → Bytes → Bytes
unfolding hex_digit
hex_digits zero n out = out
hex_digits (suc fuel) n out =
    let rest = hex_digits fuel (n / 16) (hex_digit (n % 16) ∷ out) in
    if ltb n 16 then hex_digit n ∷ out else rest

-- `%X` of a uint32.
unfoldable pub format_hex : ℕ → Bytes
unfolding hex_digits
format_hex n = hex_digits 8 n []

abbrev errno_of_cause : Cause → Option ℕ
errno_of_cause (errno n) = some n
errno_of_cause _ = none

-- errors.As(err, &e) with a syscall.Errno: the first one of the tree.
unfoldable pub as_errno : Error → Option ℕ
as_errno (sentinel c) = errno_of_cause c
as_errno (errorf f args) = none
as_errno (wrap f args e) = as_errno e
as_errno (wrap_both f args d e) = elim (as_errno d) [ some n ↦ some n | none ↦ as_errno e ]

unfoldable pub errno_text : Error → Bytes
errno_text e = elim (as_errno e) [
  | none ↦ []
  | some n ↦
      text " (windows error "
      ++ format_uint (n % 2 ^ 32)
      ++ (text ", 0x" ++ (format_hex (n % 2 ^ 32) ++ text ")"))
]

-- The errors of userToken, each from that of the call that failed.
unfoldable pub query_error : ℕ → Error → Error
query_error sid e =
    if errors_is e privilege_not_held
    then wrap "WTSQueryUserToken(session %d): the service must run as LocalSystem: %w"
        (number (pos sid) ∷ []) e
    else wrap_both "%w: session %d: %w" (number (pos sid) ∷ []) (sentinel err_no_user_session) e

unfoldable pub elevation_type_error : ℕ → Error → Error
elevation_type_error sid e =
    wrap "read the elevation type of session %d's token: %w%s"
      (number (pos sid) ∷ bytes (errno_text e) ∷ []) e

unfoldable pub linked_error : ℕ → Error → Error
linked_error sid e =
    wrap "get the elevated token linked to session %d's: %w%s"
      (number (pos sid) ∷ bytes (errno_text e) ∷ []) e

unfoldable pub not_administrator : ℕ → Error
not_administrator sid =
    wrap
      "%w: the user signed in to session %d is not an administrator, so there is no elevated token to launch with; clear LaunchElevated, or have an administrator sign in"
      (number (pos sid) ∷ []) (sentinel err_no_elevated_token)

abbrev pub duplicate_error : Error → Error
duplicate_error e = wrap "DuplicateTokenEx: %w" [] e

module _ (os : Windows) where
  -- The primary token made of `src`.
  unfoldable pub primary_of : Resource → Exec Resource
  primary_of src = named os duplicate_error (acquire os of_token (duplicate_token src))

  -- The switch over chooseElevation.
  unfoldable pub elevated_primary : ℕ → Resource → ElevationChoice → Exec Resource
  elevated_primary sid user elevate_with_token = primary_of user
  elevated_primary sid user elevate_with_linked = do
    linked ← named os (linked_error sid) (acquire os of_token (get_linked_token user))
    closing os linked (primary_of linked)
  elevated_primary sid user elevate_impossible = fail (not_administrator sid)

  -- `user.IsElevated()` cannot fail.
  unfoldable pub chosen_primary : ℕ → Resource → ℕ → Exec Resource
  chosen_primary sid user kind w =
      elevated_primary sid user (choose_elevation kind (os.is_elevated w.tick)) (next w)

  unfoldable pub primary_token : ℕ → Bool → Resource → Exec Resource
  primary_token sid false user = primary_of user
  primary_token sid true user = do
    kind ← named os (elevation_type_error sid) (read os (get_elevation_type user) os.elevation_type)
    chosen_primary sid user kind

  unfoldable pub user_token : ℕ → Bool → Exec Resource
  user_token sid elevated = do
    user ← named os (query_error sid) (acquire os of_token (query_user_token sid))
    closing os user (primary_token sid elevated user)
