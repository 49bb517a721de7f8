-- ===== src/Tests/Updates.antt =====
-- The updater on concrete data.
use winsvr.Base.{
  ℕ, ◌<◌, ◌≤◌, ◌≡◌, ◌≢◌, refl, ◌⊎◌, ◌↔◌, arith, Bool, true, false, none, some, [], ◌∷◌, ◌++◌,
  length, All,
}
use winsvr.Base.Bytes.{text, bytes_eq, cut_prefix}
use winsvr.Base.Decimal.{max_uint32, format_uint, parse_uint32}
use winsvr.Go.Error.{Error, errorf, wrap, bytes, file_path, Result, ok, err}
use winsvr.Go.World.{Env, World, FilePath, Node, Method, Response, path_eq, next}
use winsvr.Go.Exec.{◌>>=◌}
use winsvr.Go.Files.{find, erase, store}
use winsvr.Go.Os.{
  syscall, existing, move, take_away, create_new, entries_of, without, log_record, emit, os_stat,
  os_open, read_all, os_remove, os_rename, os_read_dir, os_create_temp, copy_limited, close_file,
  write_file, send, now, wait_timer,
}
use winsvr.Backoff.{sleep}
use winsvr.Framework.Utf8.{
  is_valid_utf8, is_valid_behind, rune_length, rest_of_rune, rune_size, completes, is_second,
  all_continue, is_continuation,
}
use winsvr.Update.Config.{PayloadInfo, max_bytes, state_path, temp_prefix}
use winsvr.Update.Redirect.{Request, started_on_https, refuse_tls_downgrade, follow}
use winsvr.Update.Redirect.Policy.{IsHttps, follow-IsHttps}
use winsvr.Update.Checksum.{crc64, file_crc64}
use winsvr.Update.Sweep.{
  is_generated_temp, stays, log_removed, remove_temp, sweep_entry, sweep_entries, sweep_listed,
  sweep_temps,
}
use winsvr.Update.Sweep.Names.{generated_iff}
use winsvr.Update.Sweep.Safety.{Swept, sweep-only-abandoned}
use winsvr.Update.Fetch.{
  no_etag, read_limit, accept_status, do_request, require_etag, head, check_declared, copy_error,
  refuse_copy, save_body, discard, describe, finish_copy, fill_temp, open_body, fetch,
}
use winsvr.Update.Fetch.Outcome.{Delivered}
use winsvr.Update.Install.{
  install_failed, rename_loop, install, log_changed, settle_install, install_or_discard,
  download_loop, download,
}
use winsvr.Update.Install.Outcome.{NotInstalled, download_err}
use winsvr.Update.Check.{
  load_state, write_state, save_state, same_sum, cannot_run, matches_installed, log_check,
  log_unsaved, record_state, finish_download, locally_changed, act_on, check, ensure_latest,
}
use winsvr.Update.Check.Promises.{
  ensure_latest_current, ensure_latest_updated, ensure_latest_failed, ensure_latest_recorded,
}
use winsvr.Update.Check.Settles.{IsReadable, ensure_latest_settles}
use winsvr.Tests.Data.{
  release, calm, scanned, codec, helper, updater, plain_file, before, calm-IsSane, scanned-IsSane,
}

-- All that a check runs, opened.
ensure : Env → World → Result Bool × World
unfolding ensure_latest check act_on locally_changed finish_download record_state log_unsaved
    log_check matches_installed cannot_run same_sum save_state write_state load_state download
    download_loop install_or_discard settle_install log_changed install rename_loop install_failed
    fetch open_body fill_temp finish_copy describe discard save_body refuse_copy copy_error
    check_declared head require_etag do_request accept_status read_limit no_etag sweep_temps
    sweep_listed sweep_entries sweep_entry remove_temp log_removed stays is_generated_temp
    file_crc64 crc64 max_bytes state_path temp_prefix sleep wait_timer now send write_file
    close_file copy_limited os_create_temp os_read_dir os_rename os_remove read_all os_open os_stat
    emit log_record entries_of without create_new take_away move existing syscall find erase store
    ◌>>=◌ next path_eq bytes_eq cut_prefix format_uint parse_uint32
ensure env w = ensure_latest env codec updater w

-- The first check downloads: the payload is the release, and the record describes it.
first_check :
    ((ensure calm before).0 ≡ ok true)
    × (find helper (ensure calm before).1.files
        ≡ some (record { content = text "new"; mod_time = 7_200_000_000_000; is_dir = false }))
unfolding ensure
first_check = (refl, refl)

abbrev after_first : World
after_first = (ensure calm before).1

-- The second one finds it up to date.
second_check : (ensure calm after_first).0 ≡ ok false
unfolding ensure
second_check = refl

-- The file whose name is not a download's is left.
own_file_stays :
    find (record { dir = text "C:\\svc"; base = text "helper.bin.tmp-007" }) after_first.files
    ≡ some (plain_file (text "mine"))
unfolding ensure
own_file_stays = refl

-- The payload was corrupted on disk, and every rename is refused.
abbrev corrupted : World
corrupted = record after_first { files = (helper, plain_file (text "bad")) ∷ after_first.files }

abbrev refused : Error
refused = wrap "update: install %s: %w" (file_path helper.dir helper.base ∷ []) (errorf "locked" [])

scanned_check :
    ((ensure scanned corrupted).0 ≡ err refused)
    × (find helper (ensure scanned corrupted).1.files ≡ none)
unfolding ensure
scanned_check = (refl, refl)

abbrev secure : Request
secure = record { scheme = text "https" }

follow-IsHttps_example : All IsHttps (secure ∷ secure ∷ []) × (length (secure ∷ secure ∷ []) ≤ 10)
unfolding follow refuse_tls_downgrade started_on_https bytes_eq
follow-IsHttps_example = follow-IsHttps secure (secure ∷ []) (secure ∷ secure ∷ []) refl refl

downgrade_refused :
    follow (secure ∷ []) (record { scheme = text "http" } ∷ [])
    ≡ err (errorf "update: refusing redirect from https to %s" (bytes (text "http") ∷ []))
unfolding follow refuse_tls_downgrade started_on_https bytes_eq
downgrade_refused = refl

generated_iff_example :
    (is_generated_temp (text "helper.bin.tmp-42") (text "helper.bin.tmp-") ≡ true) ↔ (
      (n : ℕ) × (n ≤ max_uint32)
      × (text "helper.bin.tmp-42" ≡ text "helper.bin.tmp-" ++ format_uint n))
generated_iff_example = generated_iff (text "helper.bin.tmp-42") (text "helper.bin.tmp-")

abbrev abandoned : FilePath
abandoned = record { dir = text "C:\\svc"; base = text "helper.bin.tmp-42" }

sweep-only-abandoned_example :
    Swept calm updater 7_200_000_000_000 before.files
      (sweep_temps calm updater before).files
      abandoned
sweep-only-abandoned_example = sweep-only-abandoned calm updater before abandoned

abbrev temp : FilePath
temp = record { dir = text "C:\\svc"; base = text "helper.bin.tmp-7" }

abbrev described : PayloadInfo
described = record { etag = text "v2"; crc64 = crc64 (text "new") }

abbrev wanted : PayloadInfo
wanted = record { etag = text "v2"; crc64 = 0 }

ensure_latest_current_example :
    (find helper (ensure calm after_first).1.files ≡ find helper after_first.files)
    × (find (state_path updater) (ensure calm after_first).1.files
        ≡ find (state_path updater) after_first.files)
    × ((n : Node) × (m : Node) × (t : ℕ) × (resp : Response) × (find helper after_first.files
          ≡ some n)
        × (find (state_path updater) after_first.files ≡ some m)
        × (calm.http t Method.head updater.url ≡ ok resp)
        × (resp.status ≡ 200)
        × (resp.etag ≢ [])
        × ((codec.decode m.content).etag ≡ resp.etag)
        × ((codec.decode m.content).crc64 ≡ crc64 n.content)
        × (0 < length n.content))
unfolding ensure
ensure_latest_current_example =
    ensure_latest_current calm codec updater after_first (ensure calm after_first).1 refl

ensure_latest_updated_example :
    (info : PayloadInfo) × (n : Node) × (find helper (ensure calm before).1.files ≡ some n)
    × Delivered calm updater info n.content
unfolding ensure
ensure_latest_updated_example =
    ensure_latest_updated calm codec updater calm-IsSane before (ensure calm before).1 refl

ensure_latest_failed_example :
    ((find helper (ensure scanned corrupted).1.files ≡ find helper corrupted.files)
      ⊎ (find helper (ensure scanned corrupted).1.files ≡ none))
    × (find (state_path updater) (ensure scanned corrupted).1.files
        ≡ find (state_path updater) corrupted.files)
unfolding ensure
ensure_latest_failed_example =
    ensure_latest_failed scanned codec updater scanned-IsSane corrupted (ensure scanned corrupted).1
      refused refl

download_err_example :
    NotInstalled scanned updater before.files (download scanned updater wanted before).1
unfolding ensure
download_err_example =
    download_err scanned updater scanned-IsSane wanted before
      (download scanned updater wanted before).1 refused refl

valid_tag : is_valid_utf8 (text "v2") ≡ true
unfolding is_valid_utf8 is_valid_behind rune_length rest_of_rune rune_size completes is_second
    all_continue is_continuation
valid_tag = refl

release_of :
    (t : ℕ) (resp : Response) → calm.http t Method.get updater.url ≡ ok resp → resp.etag ≡ text "v2"
release_of t resp got = ground (arith, got)

ensure_latest_recorded_example :
    (n : Node) × (m : Node) × (find helper (ensure calm before).1.files ≡ some n)
    × (find (state_path updater) (ensure calm before).1.files ≡ some m)
    × Delivered calm updater (codec.decode m.content) n.content
unfolding ensure
ensure_latest_recorded_example =
    ensure_latest_recorded calm codec updater calm-IsSane (λ t. refl) (λ t. refl)
      (λ i valid. (i.crc64 ∷ i.etag, refl, refl))
      (λ t resp got. rw (release_of t resp got) valid_tag) before (ensure calm before).1 refl

calm-IsReadable : IsReadable calm codec updater
calm-IsReadable = record { opens = λ t. refl; reads = λ t. refl; stats = λ t. refl }

ensure_latest_settles_example :
    ((ensure calm (ensure calm before).1).0 ≡ ok false)
    × (find helper (ensure calm (ensure calm before).1).1.files
        ≡ find helper (ensure calm before).1.files)
    × (find (state_path updater) (ensure calm (ensure calm before).1).1.files
        ≡ find (state_path updater) (ensure calm before).1.files)
unfolding ensure
ensure_latest_settles_example =
    ensure_latest_settles calm codec updater calm-IsSane calm-IsReadable (λ t. refl)
      (λ i valid. (i.crc64 ∷ i.etag, refl, refl)) (text "v2") valid_tag
      ((λ e. absurd (cc)), λ t. (release, refl, refl, refl)) release_of before
      (ensure calm before).1 (ensure calm before).1 refl refl refl
