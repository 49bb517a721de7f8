-- ===== src/Update/Steps.antt =====
-- The sweep and the requests of update.go as steps: they keep what every step of an update keeps.
pub mod Checks
use winsvr.Base.{
  Bool, true, false, ◌||◌, not, Option, none, some, List, [], ◌∷◌, arith, if◌then◌else◌, ◌==◌,
}
use winsvr.Base.Int.{ℤ, pos, sub_ℕ}
use winsvr.Base.Bytes.{Bytes, text, bytes_eq}
use winsvr.Go.Error.{Result, ok, err}
use winsvr.Go.World.{Env, World, FilePath, Method, Response, next}
use winsvr.Go.Exec.{Exec, ◌>>=◌}
use winsvr.Go.Os.{DirEntry, os_stat, os_remove, os_read_dir, now}
use winsvr.Go.Steps.{
  IsKept, Along, Along-bind, Along-os_stat, Along-os_open, Along-read_all, Along-os_remove,
  Along-os_read_dir, along-now, Along-send, along-logs,
}
use winsvr.Update.Config.{Updater, temp_prefix, stale_temp_age}
use winsvr.Update.Checksum.{file_crc64}
use winsvr.Update.Sweep.{
  beside, stays, is_generated_temp, log_removed, remove_temp, sweep_entry, sweep_entries,
  sweep_listed, sweep_temps,
}
use winsvr.Update.Fetch.{accept_status, do_request, require_etag, head}

module _ (R : World → World → Type 0) (k : IsKept R) (env : Env) where
  pub Along-file_crc64 : (p : FilePath) → Along R k (file_crc64 env p)
  unfolding file_crc64
  Along-file_crc64 p =
      Along-bind R k _ _ (Along-os_open R k env p)
        λ n. Along-bind R k _ _ (Along-read_all R k env n) λ content w. k.same w

  module _ (u : Updater) where
    along-log_removed :
        (name : Bytes) (r : Result (Unit {0})) (w : World) → R w (log_removed env u name r w)
    unfolding log_removed
    along-log_removed name (ok done) w = along-logs R k u.has_logger _ _ _ w
    along-log_removed name (err e) w = k.same w

    along-remove_temp : (name : Bytes) (w : World) → R w (remove_temp env u name w)
    unfolding remove_temp
    along-remove_temp name w =
        let removed = os_remove env (beside env u name) w in
        k.both w removed.1 (log_removed env u name removed.0 removed.1)
          (Along-os_remove R k env (beside env u name) w)
          (along-log_removed name removed.0 removed.1)

    along-sweep_entry : (cutoff : ℤ) (e : DirEntry) (w : World) → R w (sweep_entry env u cutoff e w)
    unfolding sweep_entry
    along-sweep_entry cutoff e w =
        let w' = (os_stat env (beside env u e.name) w).1 in
        ground (
          arith,
          k.same w,
          Along-os_stat R k env (beside env u e.name) w,
          k.both w w' (remove_temp env u e.name w') (Along-os_stat R k env (beside env u e.name) w)
              (along-remove_temp e.name w'),
        )

    along-sweep_entries :
        (cutoff : ℤ) (es : List DirEntry) (w : World) → R w (sweep_entries env u cutoff es w)
    unfolding sweep_entries
    along-sweep_entries cutoff [] w = k.same w
    along-sweep_entries cutoff (e ∷ es) w =
        let w' = sweep_entry env u cutoff e w in
        k.both w w' (sweep_entries env u cutoff es w') (along-sweep_entry cutoff e w)
          (along-sweep_entries cutoff es w')

    along-sweep_listed : (r : Result (List DirEntry)) (w : World) → R w (sweep_listed env u r w)
    unfolding sweep_listed
    along-sweep_listed (err e) w = k.same w
    along-sweep_listed (ok es) w =
        k.both w _ _ (along-now R k env w) (along-sweep_entries _ es (now env w).1)

    pub along-sweep_temps : (w : World) → R w (sweep_temps env u w)
    unfolding sweep_temps
    along-sweep_temps w =
        let listed = os_read_dir env u.path.dir w in
        k.both w listed.1 (sweep_listed env u listed.0 listed.1)
          (Along-os_read_dir R k env u.path.dir w) (along-sweep_listed listed.0 listed.1)

    pub Along-do_request : (method : Method) (url : Bytes) → Along R k (do_request env u method url)
    unfolding do_request accept_status
    Along-do_request method url =
        Along-bind R k _ _ (Along-send R k env method url) λ resp w. ground (arith, k.same w)

    pub Along-require_etag :
        (method : Method) (resp : Response) → Along R k (require_etag env u method resp)
    unfolding require_etag
    Along-require_etag method resp w = ground (arith, k.same w)

    pub Along-head : Along R k (head env u)
    unfolding head
    Along-head =
        Along-bind R k _ _ (Along-do_request Method.head u.url)
          λ resp. Along-bind R k _ _ (Along-require_etag Method.head resp) λ _ w. k.same w
