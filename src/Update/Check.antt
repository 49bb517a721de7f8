-- ===== src/Update/Check.antt =====
-- `check` and `EnsureLatest` of update.go, with the state file.
pub mod Parts
pub mod Outcome
pub mod Promises
pub mod Settles
use Prim.Native.String.{String}
use winsvr.Base.{ℕ, Bool, true, false, not, ◌&&◌, ◌||◌, [], ◌∷◌, ◌==◌, if◌then◌else◌, length}
use winsvr.Base.Bytes.{Bytes, bytes_eq}
use winsvr.Go.Error.{Result, ok, err, bytes, file_path, word, flag}
use winsvr.Go.World.{Env, World, Node, info, warn, arg, failure}
use winsvr.Go.Exec.{Exec, ◌>>=◌, pure}
use winsvr.Go.Os.{os_stat, os_open, read_all, write_file, log_record}
use winsvr.Update.Config.{Updater, PayloadInfo, no_info, Codec, state_path}
use winsvr.Update.Checksum.{file_crc64}
use winsvr.Update.Sweep.{sweep_temps}
use winsvr.Update.Fetch.{head}
use winsvr.Update.Install.{download}

module _ (env : Env) (codec : Codec) (u : Updater) where
  -- os.ReadFile, then json.Unmarshal with its error dropped.
  abbrev decoded : Result Bytes → PayloadInfo
  decoded (ok content) = codec.decode content
  decoded (err e) = no_info

  unfoldable pub load_state : World → PayloadInfo × World
  load_state w =
      let (content, w') = (os_open env (state_path u) >>= read_all env) w in (decoded content, w')

  unfoldable pub write_state : Result Bytes → Exec (Unit {0})
  write_state (ok content) w = write_file env (state_path u) content w
  write_state (err e) w = (err e, w)

  unfoldable pub save_state : PayloadInfo → Exec (Unit {0})
  save_state s = write_state (codec.encode s)

  unfoldable pub same_sum : ℕ → Result ℕ → Bool
  same_sum want (ok got) = got == want
  same_sum want (err e) = false

  -- An error of os.Stat, or a size of 0.
  unfoldable pub cannot_run : Result Node → Bool
  cannot_run (ok n) = length n.content == 0
  cannot_run (err e) = true

  unfoldable pub matches_installed : ℕ → World → Bool × World
  matches_installed want w =
      let (found, w1) = os_stat env u.path w in
      let (sum, w2) = file_crc64 env u.path w1 in
      if cannot_run found then (false, w1) else (same_sum want sum, w2)

  unfoldable pub log_check : PayloadInfo → PayloadInfo → Bool → Bool → String → World → World
  log_check cur rem newer changed action w =
      if u.has_logger
      then log_record info "update check"
          (("path", arg (file_path u.path.dir u.path.base))
            ∷ ("remote_etag", arg (bytes rem.etag))
            ∷ ("local_etag", arg (bytes cur.etag))
            ∷ ("needsUpdate", arg (flag newer))
            ∷ ("locallyChanged", arg (flag changed))
            ∷ ("action", arg (word action))
            ∷ [])
          w
      else w

  unfoldable pub log_unsaved : Result (Unit {0}) → World → World
  log_unsaved (ok done) w = w
  log_unsaved (err e) w =
      if u.has_logger
      then log_record warn "update: could not record state; the next start will download again"
          (("path", arg (file_path (state_path u).dir (state_path u).base))
            ∷ ("err", failure e)
            ∷ [])
          w
      else w

  -- The state is recorded; a failure of that is only logged.
  unfoldable pub record_state : PayloadInfo → World → World
  record_state installed w = let (saved, w') = save_state installed w in log_unsaved saved w'

  unfoldable pub finish_download : PayloadInfo → PayloadInfo → Bool → Bool → PayloadInfo → Exec Bool
  finish_download cur rem newer changed installed w =
      (ok true, log_check cur rem newer changed "downloaded" (record_state installed w))

  -- `changed`: the payload is read only when the ETag is the recorded one.
  unfoldable pub locally_changed : PayloadInfo → Bool → World → Bool × World
  locally_changed cur newer w =
      let (same, w') = matches_installed cur.crc64 w in if newer then (false, w) else (not same, w')

  unfoldable pub act_on : PayloadInfo → PayloadInfo → Exec Bool
  act_on cur rem w =
      let newer = not (bytes_eq rem.etag cur.etag) in
      let (changed, w') = locally_changed cur newer w in
      if not newer && not changed
      then (ok false, log_check cur rem newer changed "up-to-date" w')
      else (download env u rem >>= finish_download cur rem newer changed) w'

  unfoldable pub check : Exec Bool
  check w = let (cur, w') = load_state w in (head env u >>= act_on cur) w'

  unfoldable pub ensure_latest : Exec Bool
  ensure_latest w = check (sweep_temps env u w)
