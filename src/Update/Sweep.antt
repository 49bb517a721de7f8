-- ===== src/Update/Sweep.antt =====
-- isGeneratedTemp and sweepTemps of update.go.
pub mod Names
pub mod Safety
pub mod Listing
pub mod Complete
use winsvr.Base.{ℕ, ◌+◌, Bool, true, false, ◌||◌, not, none, some, List, [], ◌∷◌, if◌then◌else◌}
use winsvr.Base.Int.{ℤ, pos, sub_ℕ, ltb_ℤ}
use winsvr.Base.Bytes.{Bytes, cut_prefix, bytes_eq}
use winsvr.Base.Decimal.{parse_uint32, format_uint}
use winsvr.Go.Error.{Result, ok, err, bytes}
use winsvr.Go.World.{Env, World, FilePath, Node, info, arg}
use winsvr.Go.Os.{DirEntry, os_read_dir, os_stat, os_remove, now, log_record}
use winsvr.Update.Config.{Updater, temp_prefix, stale_temp_age}

unfoldable pub is_generated_temp : Bytes → Bytes → Bool
is_generated_temp name prefix = elim (cut_prefix name prefix) [
  | none ↦ false
  | some suffix ↦ elim (parse_uint32 suffix) [
    | none ↦ false
    | some n ↦ bytes_eq (format_uint n) suffix
  ]
]

module _ (env : Env) (u : Updater) where
  -- A file of the payload's directory.
  abbrev pub beside : Bytes → FilePath
  beside name = record { dir = u.path.dir; base = name }

  -- `info.ModTime().After(cutoff)`, or an error of Info: the file stays.
  unfoldable pub stays : ℤ → Result Node → Bool
  stays cutoff (ok n) = ltb_ℤ cutoff (pos n.mod_time)
  stays cutoff (err e) = true

  unfoldable pub log_removed : Bytes → Result (Unit {0}) → World → World
  log_removed name (ok done) w =
      if u.has_logger
      then log_record info "update: removed an abandoned download" (("path", arg (bytes name)) ∷ [])
          w
      else w
  log_removed name (err e) w = w

  unfoldable pub remove_temp : Bytes → World → World
  remove_temp name w =
      let (removed, w') = os_remove env (beside name) w in log_removed name removed w'

  -- One round of the loop over the entries.
  unfoldable pub sweep_entry : ℤ → DirEntry → World → World
  sweep_entry cutoff e w =
      let (found, w') = os_stat env (beside e.name) w in
      if e.is_dir || not (is_generated_temp e.name (temp_prefix u))
      then w
      else if stays cutoff found
      then w'
      else remove_temp e.name w'

  unfoldable pub sweep_entries : ℤ → List DirEntry → World → World
  sweep_entries cutoff [] w = w
  sweep_entries cutoff (e ∷ es) w = sweep_entries cutoff es (sweep_entry cutoff e w)

  unfoldable pub sweep_listed : Result (List DirEntry) → World → World
  sweep_listed (err e) w = w
  sweep_listed (ok entries) w =
      let (t, w') = now env w in sweep_entries (sub_ℕ t stale_temp_age) entries w'

  unfoldable pub sweep_temps : World → World
  sweep_temps w = let (listed, w') = os_read_dir env u.path.dir w in sweep_listed listed w'
