-- ===== src/Update/Config.antt =====
-- The Updater, the record of what it installed, and its bounds (update.go).
use winsvr.Base.{ℕ, ◌*◌, ◌^◌, Bool, ◌++◌, if◌then◌else◌}
use winsvr.Base.Int.{ℤ, pos, ltb_ℤ}
use winsvr.Base.Bytes.{Bytes, text}
use winsvr.Go.Error.{Result}
use winsvr.Go.World.{FilePath}

-- `has_logger` says that Logger is not nil. The Client is the environment's `http`.
pub record Updater : Type 0 where
  pub url : Bytes
  pub path : FilePath
  pub max_bytes : ℤ
  pub has_logger : Bool

-- payloadInfo; an absent field reads as the empty ETag and the checksum 0.
pub record PayloadInfo : Type 0 where
  pub etag : Bytes
  pub crc64 : ℕ

abbrev pub no_info : PayloadInfo
no_info = record { etag = text ""; crc64 = 0 }

-- encoding/json on payloadInfo: what MarshalIndent writes, and what the variable holds after
-- Unmarshal has read the bytes, whether or not it returned an error.
pub record Codec : Type 0 where
  pub encode : PayloadInfo → Result Bytes
  pub decode : Bytes → PayloadInfo

abbrev pub default_max_bytes : ℤ
default_max_bytes = pos (512 * 2 ^ 20)

abbrev pub install_attempts : ℕ
install_attempts = 5

abbrev pub install_retry_delay : ℤ
install_retry_delay = pos 200_000_000

abbrev pub download_attempts : ℕ
download_attempts = 3

-- One hour.
abbrev pub stale_temp_age : ℕ
stale_temp_age = 3_600_000_000_000

unfoldable pub max_bytes : Updater → ℤ
max_bytes u = if ltb_ℤ (pos 0) u.max_bytes then u.max_bytes else default_max_bytes

unfoldable pub state_path : Updater → FilePath
state_path u = record u.path { base = u.path.base ++ text ".update.json" }

-- filepath.Base(u.Path) + ".tmp-", in front of the number of a temporary file.
unfoldable pub temp_prefix : Updater → Bytes
temp_prefix u = u.path.base ++ text ".tmp-"
