-- ===== src/Update/Install.antt =====
-- `install` and `download` of update.go.
pub mod Renames
pub mod Outcome
use winsvr.Base.{ℕ, zero, suc, ◌+◌, ◌-◌, not, Bool, true, false, [], ◌∷◌, ◌==◌, if◌then◌else◌}
use winsvr.Base.Int.{pos}
use winsvr.Base.Bytes.{bytes_eq}
use winsvr.Go.Error.{Error, errorf, wrap, bytes, file_path, number, Result, ok, err}
use winsvr.Go.World.{Env, World, FilePath, warn, arg}
use winsvr.Go.Exec.{Exec, ◌>>=◌}
use winsvr.Go.Os.{os_remove, os_rename, log_record}
use winsvr.Backoff.{sleep}
use winsvr.Update.Config.{
  Updater, PayloadInfo, install_attempts, install_retry_delay, download_attempts,
}
use winsvr.Update.Fetch.{fetch, discard}

module _ (env : Env) (u : Updater) where
  unfoldable pub install_failed : Error → Error
  install_failed e = wrap "update: install %s: %w" (file_path u.path.dir u.path.base ∷ []) e

  -- The loop, by the attempts left after this one: none is left when `attempt` is installAttempts.
  unfoldable pub rename_loop : ℕ → FilePath → Exec (Unit {0})
  rename_loop zero tmp w =
      let (renamed, w1) = os_rename env tmp u.path w in
      elim renamed [ ok done ↦ (ok tt, w1) | err e ↦ (err (install_failed e), w1) ]
  rename_loop (suc left) tmp w =
      let (renamed, w1) = os_rename env tmp u.path w in
      let (fired, w2) = sleep env install_retry_delay w1 in
      elim renamed [
        | ok done ↦ (ok tt, w1)
        | err e ↦ elim fired [
          | true ↦ rename_loop left tmp w2
          | false ↦ (err (install_failed e), w2)
        ]
      ]

  -- The error of the first os.Remove is dropped.
  unfoldable pub install : FilePath → Exec (Unit {0})
  install tmp w = rename_loop (install_attempts - 1) tmp (os_remove env u.path w).1

  unfoldable pub log_changed : ℕ → PayloadInfo → PayloadInfo → World → World
  log_changed attempt want got w =
      if u.has_logger
      then log_record warn "update: remote changed between HEAD and GET; reading again"
          (("attempt", arg (number (pos attempt)))
            ∷ ("head_etag", arg (bytes want.etag))
            ∷ ("get_etag", arg (bytes got.etag))
            ∷ [])
          w
      else w

  -- A failed install takes its temporary file along.
  unfoldable pub settle_install : FilePath → PayloadInfo → Result (Unit {0}) → Exec PayloadInfo
  settle_install tmp got (ok done) w = (ok got, w)
  settle_install tmp got (err e) w = (err e, discard env u tmp w)

  unfoldable pub install_or_discard : FilePath → PayloadInfo → Exec PayloadInfo
  install_or_discard tmp got w = let (r, w') = install tmp w in settle_install tmp got r w'

  -- The loop of `download`, by the attempts left; `attempt` counts up from 1.
  unfoldable pub download_loop : ℕ → ℕ → PayloadInfo → Exec PayloadInfo
  download_loop zero attempt want w = (
    err (
        errorf "update: %s changed on every read; gave up after %d attempts"
          (bytes u.url ∷ number (pos download_attempts) ∷ [])),
    w,
  )
  download_loop (suc left) attempt want w =
      (fetch env u >>= λ (tmp, got) w1.
      let again =
        download_loop left (attempt + 1) (record want { etag = got.etag })
          (log_changed attempt want got (discard env u tmp w1)) in
      if not (bytes_eq got.etag want.etag) then again else install_or_discard tmp got w1)
        w

  unfoldable pub download : PayloadInfo → Exec PayloadInfo
  download want = download_loop download_attempts 1 want
