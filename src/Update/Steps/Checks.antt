-- ===== src/Update/Steps/Checks.antt =====
-- A download and a check of update.go as steps: they keep what every step of an update keeps.
use Prim.Native.String.{String}
use winsvr.Base.{ℕ, zero, suc, ◌+◌, ◌-◌, Bool, not, Option, none, some, arith}
use winsvr.Base.Int.{ℤ}
use winsvr.Base.Bytes.{Bytes, bytes_eq}
use winsvr.Go.Error.{Error, Result, ok, err}
use winsvr.Go.World.{Env, World, FilePath, Method, Response}
use winsvr.Go.Exec.{◌>>=◌}
use winsvr.Go.Os.{os_stat, os_open, read_all, os_remove, os_rename}
use winsvr.Go.Steps.{
  IsKept, Along, Along-bind, Along-os_stat, Along-os_open, Along-read_all, Along-os_remove,
  Along-os_rename, Along-os_create_temp, Along-write_file, along-copy_limited, along-close_file,
  along-wait_timer, along-logs,
}
use winsvr.Backoff.{sleep}
use winsvr.Update.Config.{
  Updater, PayloadInfo, Codec, state_path, temp_prefix, max_bytes, install_attempts,
  install_retry_delay, download_attempts,
}
use winsvr.Update.Checksum.{file_crc64}
use winsvr.Update.Sweep.{sweep_temps}
use winsvr.Update.Fetch.{
  head, check_declared, open_body, discard, read_limit, save_body, describe, finish_copy, fill_temp,
  fetch,
}
use winsvr.Update.Install.{
  rename_loop, install, settle_install, install_or_discard, log_changed, download_loop, download,
}
use winsvr.Update.Check.{
  load_state, write_state, save_state, matches_installed, locally_changed, log_check, log_unsaved,
  record_state, finish_download, act_on, check, ensure_latest,
}
use winsvr.Update.Steps.{
  Along-file_crc64, along-sweep_temps, Along-do_request, Along-require_etag, Along-head,
}

module _ (R : World → World → Type 0) (k : IsKept R) (env : Env) where
  pub along-sleep : (d : ℤ) (w : World) → R w (sleep env d w).1
  unfolding sleep
  along-sleep d w = along-wait_timer R k env d w

  module _ (u : Updater) where
    Along-open_body : Along R k (open_body env u)
    unfolding open_body check_declared
    Along-open_body = Along-bind R k _ _ (Along-do_request R k env u Method.get u.url) λ resp.
        Along-bind R k _ _ (Along-require_etag R k env u Method.get resp)
          λ _. Along-bind R k _ _ (λ w. ground (arith, k.same w)) λ _ w. k.same w

    along-discard : (tmp : FilePath) (w : World) → R w (discard env u tmp w)
    unfolding discard
    along-discard tmp w = Along-os_remove R k env tmp w

    along-save_body :
        (tmp : FilePath) (resp : Response) (w : World) → R w (save_body env u tmp resp w).1
    unfolding save_body
    along-save_body tmp resp w =
        k.both w _ _ (along-copy_limited R k env tmp resp (read_limit (max_bytes u)) w)
          (along-close_file R k env _)

    Along-describe :
        (tmp : FilePath) (resp : Response) (r : Result ℕ) → Along R k (describe env u tmp resp r)
    unfolding describe
    Along-describe tmp resp (ok sum) w = k.same w
    Along-describe tmp resp (err e) w = along-discard tmp w

    Along-finish_copy :
        (tmp : FilePath) (resp : Response) (stop : Option Error)
        → Along R k (finish_copy env u tmp resp stop)
    unfolding finish_copy
    Along-finish_copy tmp resp (some e) w = along-discard tmp w
    Along-finish_copy tmp resp none w =
        let sum = file_crc64 env tmp w in
        k.both w sum.1 _ (Along-file_crc64 R k env tmp w) (Along-describe tmp resp sum.0 sum.1)

    Along-fill_temp : (resp : Response) (tmp : FilePath) → Along R k (fill_temp env u resp tmp)
    unfolding fill_temp
    Along-fill_temp resp tmp w =
        let saved = save_body env u tmp resp w in
        k.both w saved.1 _ (along-save_body tmp resp w) (Along-finish_copy tmp resp saved.0 saved.1)

    Along-fetch : Along R k (fetch env u)
    unfolding fetch
    Along-fetch = Along-bind R k _ _ Along-open_body λ resp.
        Along-bind R k _ _ (Along-os_create_temp R k env u.path.dir (temp_prefix u))
          (λ tmp. Along-fill_temp resp tmp)

    Along-rename_loop : (left : ℕ) (tmp : FilePath) → Along R k (rename_loop env u left tmp)
    unfolding rename_loop
    Along-rename_loop zero tmp w = ground (arith, Along-os_rename R k env tmp u.path w)
    Along-rename_loop (suc left) tmp w =
        let w1 = (os_rename env tmp u.path w).1 in
        let w2 = (sleep env install_retry_delay w1).1 in
        let first = Along-os_rename R k env tmp u.path w in
        let waited = k.both w w1 w2 first (along-sleep install_retry_delay w1) in
        let rest =
          k.both w w2 (rename_loop env u left tmp w2).1 waited (Along-rename_loop left tmp w2) in
        ground (arith, first, waited, rest)

    Along-settle_install :
        (tmp : FilePath) (got : PayloadInfo) (r : Result (Unit {0}))
        → Along R k (settle_install env u tmp got r)
    unfolding settle_install
    Along-settle_install tmp got (ok done) w = k.same w
    Along-settle_install tmp got (err e) w = along-discard tmp w

    Along-install_or_discard :
        (tmp : FilePath) (got : PayloadInfo) → Along R k (install_or_discard env u tmp got)
    unfolding install_or_discard install
    Along-install_or_discard tmp got w =
        let w1 = (os_remove env u.path w).1 in
        let r = rename_loop env u (install_attempts - 1) tmp w1 in
        k.both w w1 (settle_install env u tmp got r.0 r.1).1 (Along-os_remove R k env u.path w) (
          k.both w1 r.1 (settle_install env u tmp got r.0 r.1).1
            (Along-rename_loop (install_attempts - 1) tmp w1)
            (Along-settle_install tmp got r.0 r.1))

    Along-download_loop :
        (left attempt : ℕ) (want : PayloadInfo) → Along R k (download_loop env u left attempt want)
    unfolding download_loop log_changed
    Along-download_loop zero attempt want w = k.same w
    Along-download_loop (suc left) attempt want w =
        Along-bind R k (fetch env u) _ Along-fetch
          (λ x w1.
            let w2 = discard env u x.0 w1 in
            let w3 = log_changed env u attempt want x.1 w2 in
            let gone = along-discard x.0 w1 in
            let said = k.both w1 w2 w3 gone (along-logs R k u.has_logger _ _ _ w2) in
            let want' : PayloadInfo = record want { etag = x.1.etag } in
            let again =
              k.both w1 w3 (download_loop env u left (attempt + 1) want' w3).1 said
                (Along-download_loop left (attempt + 1) want' w3) in
            ground (arith, again, Along-install_or_discard x.0 x.1 w1))
          w

    pub Along-download : (want : PayloadInfo) → Along R k (download env u want)
    unfolding download
    Along-download want = Along-download_loop download_attempts 1 want

  module _ (codec : Codec) (u : Updater) where
    along-load_state : (w : World) → R w (load_state env codec u w).1
    unfolding load_state
    along-load_state w =
        Along-bind R k (os_open env (state_path u)) (read_all env)
          (Along-os_open R k env (state_path u)) (λ n. Along-read_all R k env n) w

    along-log_unsaved : (r : Result (Unit {0})) (w : World) → R w (log_unsaved env codec u r w)
    unfolding log_unsaved
    along-log_unsaved (ok done) w = k.same w
    along-log_unsaved (err e) w = along-logs R k u.has_logger _ _ _ w

    Along-write_state : (r : Result Bytes) → Along R k (write_state env codec u r)
    unfolding write_state
    Along-write_state (ok content) w = Along-write_file R k env (state_path u) content w
    Along-write_state (err e) w = k.same w

    along-record_state : (info : PayloadInfo) (w : World) → R w (record_state env codec u info w)
    unfolding record_state save_state
    along-record_state info w =
        let saved = write_state env codec u (codec.encode info) w in
        k.both w saved.1 _ (Along-write_state (codec.encode info) w)
          (along-log_unsaved saved.0 saved.1)

    along-log_check :
        (cur rem : PayloadInfo) (newer changed : Bool) (action : String) (w : World)
        → R w (log_check env codec u cur rem newer changed action w)
    unfolding log_check
    along-log_check cur rem newer changed action w = along-logs R k u.has_logger _ _ _ w

    along-locally_changed :
        (cur : PayloadInfo) (newer : Bool) (w : World)
        → R w (locally_changed env codec u cur newer w).1
    unfolding locally_changed matches_installed
    along-locally_changed cur newer w =
        let w1 = (os_stat env u.path w).1 in
        let found = Along-os_stat R k env u.path w in
        ground (
          arith,
          k.same w,
          found,
          k.both w w1 (file_crc64 env u.path w1).1 found (Along-file_crc64 R k env u.path w1),
        )

    Along-finish_download :
        (cur rem : PayloadInfo) (newer changed : Bool) (installed : PayloadInfo)
        → Along R k (finish_download env codec u cur rem newer changed installed)
    unfolding finish_download
    Along-finish_download cur rem newer changed installed w =
        k.both w (record_state env codec u installed w) _ (along-record_state installed w)
          (along-log_check cur rem newer changed "downloaded" _)

    Along-act_on : (cur rem : PayloadInfo) → Along R k (act_on env codec u cur rem)
    unfolding act_on
    Along-act_on cur rem w =
        let newer = not (bytes_eq rem.etag cur.etag) in
        let changed = (locally_changed env codec u cur newer w).0 in
        let w1 = (locally_changed env codec u cur newer w).1 in
        let compared = along-locally_changed cur newer w in
        ground (
          arith,
          k.both w w1 (log_check env codec u cur rem newer changed "up-to-date" w1) compared
              (along-log_check cur rem newer changed "up-to-date" w1),
          k.both w w1
              ((download env u rem >>= finish_download env codec u cur rem newer changed) w1).1
              compared
              (Along-bind R k (download env u rem)
                (finish_download env codec u cur rem newer changed) (Along-download u rem)
                (Along-finish_download cur rem newer changed) w1),
        )

    -- What every step of an update keeps is kept by the whole of EnsureLatest.
    pub Along-ensure_latest : Along R k (ensure_latest env codec u)
    unfolding ensure_latest check
    Along-ensure_latest w =
        let w0 = sweep_temps env u w in
        let cur = (load_state env codec u w0).0 in
        let w1 = (load_state env codec u w0).1 in
        let w2 = ((head env u >>= act_on env codec u cur) w1).1 in
        k.both w w0 w2 (along-sweep_temps R k env u w) (
          k.both w0 w1 w2 (along-load_state w0) (
            Along-bind R k (head env u) (act_on env codec u cur) (Along-head R k env u)
              (Along-act_on cur) w1))
