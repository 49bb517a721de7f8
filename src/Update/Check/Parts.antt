-- ===== src/Update/Check/Parts.antt =====
-- What the parts of `check` in update.go do: reading the state, comparing the payload, recording.
use Prim.Native.String.{String}
use winsvr.Base.{
  ℕ, ◌+◌, ◌<◌, ◌≡◌, refl, ◌⊎◌, inl, inr, Bool, true, false, none, some, [], arith, length,
}
use winsvr.Base.Bytes.{Bytes}
use winsvr.Go.Error.{Result, ok}
use winsvr.Go.World.{Env, World, FilePath, Node, path_eq, Op, next}
use Op.{op_open, op_write}
use winsvr.Go.Exec.{◌>>=◌}
use winsvr.Go.Files.{find, store, find-store, path_eq_refl}
use winsvr.Go.Os.{os_stat, os_open, read_all, write_file, log_record, syscall, file}
use winsvr.Go.Effects.{
  Result-cases, files-os_stat, os_stat_ok, files-read, read_ok, files-write_file_ne,
}
use winsvr.Update.Config.{Updater, PayloadInfo, no_info, Codec, state_path}
use winsvr.Update.Checksum.{crc64, file_crc64}
use winsvr.Update.Fetch.Body.{files-file_crc64, file_crc64_ok}
use winsvr.Update.Check.{
  load_state, matches_installed, same_sum, cannot_run, save_state, write_state, record_state,
  log_unsaved, log_check, locally_changed,
}

module _ (env : Env) (codec : Codec) (u : Updater) where
  pub files-load_state : (w : World) → (load_state env codec u w).1.files ≡ w.files
  unfolding load_state
  files-load_state w = files-read env (state_path u) w

  -- The loaded record is nothing, or what the state file says.
  pub load_state_from :
      (w : World)
      → ((load_state env codec u w).0 ≡ no_info)
        ⊎ ((n : Node) × (find (state_path u) w.files ≡ some n)
            × ((load_state env codec u w).0 ≡ codec.decode n.content))
  unfolding load_state
  load_state_from w = elim (Result-cases ((os_open env (state_path u) >>= read_all env) w).0) [
    | inl (e, bad) ↦ inl (ground (arith, bad))
    | inr (content, fine) ↦
        let (n, there, same) = read_ok env (state_path u) w content fine in
        inr (n, there, ground (arith, fine, same))
  ]

  pub files-matches_installed :
      (want : ℕ) (w : World) → (matches_installed env codec u want w).1.files ≡ w.files
  unfolding matches_installed
  files-matches_installed want w =
      ground
        (arith, files-os_stat env u.path w, files-file_crc64 env u.path (os_stat env u.path w).1)

  pub matches_installed-true :
      (want : ℕ) (w : World)
      → (matches_installed env codec u want w).0 ≡ true
      → (n : Node) × (find u.path w.files ≡ some n)
        × (0 < length n.content)
        × (crc64 n.content ≡ want)
  unfolding matches_installed same_sum cannot_run
  matches_installed-true want w h = elim (Result-cases (os_stat env u.path w).0) [
    | inl (e, bad) ↦ absurd (ground (arith, bad))
    | inr (n, found) ↦ elim (Result-cases (file_crc64 env u.path (os_stat env u.path w).1).0) [
      | inl (e, bad) ↦ absurd (ground (arith, found, bad))
      | inr (sum, fine) ↦
          let there = os_stat_ok env u.path w n found in
          let (m, there', same) = file_crc64_ok env u.path (os_stat env u.path w).1 sum fine in
          let m_is_n : m ≡ n = ground (arith, there, there', files-os_stat env u.path w) in
          (n, there, ground (arith, found, fine), ground (arith, found, fine, same, m_is_n))
    ]
  ]

  pub files-locally_changed :
      (cur : PayloadInfo) (newer : Bool) (w : World)
      → (locally_changed env codec u cur newer w).1.files ≡ w.files
  unfolding locally_changed
  files-locally_changed cur newer w = ground (arith, files-matches_installed cur.crc64 w)

  pub files-log_check :
      (cur rem : PayloadInfo) (newer changed : Bool) (action : String) (w : World)
      → (log_check env codec u cur rem newer changed action w).files ≡ w.files
  unfolding log_check log_record
  files-log_check cur rem newer changed action w = ground arith

  files-log_unsaved :
      (r : Result (Unit {0})) (w : World) → (log_unsaved env codec u r w).files ≡ w.files
  unfolding log_unsaved log_record
  files-log_unsaved r w = ground arith

  -- Recording the state writes the state file and no other.
  pub find-record_state_ne :
      (info : PayloadInfo) (w : World) (q : FilePath)
      → path_eq (state_path u) q ≡ false
      → find q (record_state env codec u info w).files ≡ find q w.files
  unfolding record_state save_state write_state
  find-record_state_ne info w q ne = elim (Result-cases (codec.encode info)) [
    | inl (e, bad) ↦ rw (bad, write_state) (rw files-log_unsaved)
    | inr (content, fine) ↦
        rw (fine, write_state)
          (rw files-log_unsaved (files-write_file_ne env (state_path u) q content w ne))
  ]

  -- Where no write fails, the state file holds what was encoded.
  pub find-record_state_self :
      ((t : ℕ) → env.fault t op_open ≡ none)
      → ((t : ℕ) → env.fault t op_write ≡ none)
      → (info : PayloadInfo) (content : Bytes) (w : World) → codec.encode info ≡ ok content
      → (m : Node) × (find (state_path u) (record_state env codec u info w).files ≡ some m)
        × (m.content ≡ content)
  unfolding record_state save_state write_state write_file syscall next
  find-record_state_self opens writes info content w fine = (
    file content (env.now (w.tick + 1)),
    rw (fine, write_state)
        (rw files-log_unsaved (
          ground (
            arith,
            opens w.tick,
            writes (w.tick + 1),
            path_eq_refl (state_path u),
            find-store (state_path u) (state_path u) (file content (env.now (w.tick + 1)))
                (store (state_path u) (file [] (env.now (w.tick + 1))) w.files),
          ))),
    refl,
  )
