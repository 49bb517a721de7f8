-- ===== src/Go/Error.antt =====
-- Go's error values: sentinels, `errors.New`, `fmt.Errorf` with `%w`, and `errors.Is`.
use Prim.Native.String.{String}
use winsvr.Base.{ℕ, ◌+◌, Bool, false, ◌||◌, List, ◌==◌}
use winsvr.Base.Int.{ℤ}
use winsvr.Base.Bytes.{Bytes}

-- The values that the code compares errors with: the package's own sentinels, those of the standard
-- library, and the numbered errors of Windows.
pub data Cause : Type 0 where
  err_unsupported err_no_user_session err_no_elevated_token : Cause
  err_elevation_required err_elevation_cancelled : Cause
  context_canceled exist not_exist : Cause
  einval : Cause
  errno : ℕ → Cause

cause_number : Cause → ℕ
cause_number err_unsupported = 0
cause_number err_no_user_session = 1
cause_number err_no_elevated_token = 2
cause_number err_elevation_required = 3
cause_number err_elevation_cancelled = 4
cause_number context_canceled = 5
cause_number exist = 6
cause_number not_exist = 7
cause_number einval = 8
cause_number (errno n) = 9 + n

unfoldable pub cause_eq : Cause → Cause → Bool
unfolding cause_number
cause_eq a b = cause_number a == cause_number b

-- An argument of a format string.
pub data Arg : Type 0 where
  word : String → Arg
  bytes : Bytes → Arg
  file_path : Bytes → Bytes → Arg
  number : ℤ → Arg
  flag : Bool → Arg

-- `wrap f args e` is fmt.Errorf with one `%w`; `wrap_both` has two.
pub data Error : Type 0 where
  sentinel : Cause → Error
  errorf : String → List Arg → Error
  wrap : String → List Arg → Error → Error
  wrap_both : String → List Arg → Error → Error → Error

-- errors.Is: some error of the tree is the target.
unfoldable pub errors_is : Error → Cause → Bool
unfolding cause_eq
errors_is (sentinel c) target = cause_eq c target
errors_is (errorf f args) target = false
errors_is (wrap f args e) target = errors_is e target
errors_is (wrap_both f args d e) target = errors_is d target || errors_is e target

-- A value with its error.
pub data Result {ℓ} (A : Type ℓ) : Type ℓ where
  ok : A → Result A
  err : Error → Result A
