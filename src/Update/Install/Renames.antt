-- ===== src/Update/Install/Renames.antt =====
-- What `install` of update.go does to the files: the payload is replaced by the temporary file, or
-- the call fails with the payload as it was or gone.
use winsvr.Base.{ℕ, zero, suc, ◌-◌, ◌≡◌, ◌∙◌, ◌⊎◌, inl, inr, false, none, some, arith, Bool-cases}
use winsvr.Base.Bytes.{cut_prefix, cut_prefix-append}
use winsvr.Go.Error.{Error, ok, err}
use winsvr.Go.World.{Env, World, FilePath, Node, path_eq, path_eq_iff}
use winsvr.Go.Files.{find, store, erase, find-erase, find-store, path_eq_refl}
use winsvr.Go.Os.{os_remove, os_rename}
use winsvr.Go.Effects.{
  Result-cases, os_rename_err, os_rename_ok, files-wait_timer, find-os_remove_ne,
  find-os_remove_self,
}
use winsvr.Backoff.{sleep}
use winsvr.Update.Config.{Updater, temp_prefix, install_retry_delay, install_attempts}
use winsvr.Update.Fetch.Outcome.{IsTemp}
use winsvr.Update.Install.{rename_loop, install, install_failed}

module _ (env : Env) (u : Updater) where
  -- A temporary file is not a file whose name lacks the prefix.
  pub IsTemp-ne :
      (tmp q : FilePath)
      → IsTemp env u tmp
      → cut_prefix q.base (temp_prefix u) ≡ none
      → path_eq tmp q ≡ false
  IsTemp-ne tmp q (s, e) apart = elim (Bool-cases (path_eq tmp q)) [
    | inr ne ↦ ne
    | inl same ↦
        absurd (
          ground (arith, e, apart, (path_eq_iff tmp q).0 same, cut_prefix-append (temp_prefix u) s))
  ]

  files-sleep : (w : World) → (sleep env install_retry_delay w).1.files ≡ w.files
  unfolding sleep
  files-sleep w = files-wait_timer env install_retry_delay w

  -- The loop either fails and leaves every file, or it moves the file.
  rename_loop_moves :
      (left : ℕ) (tmp : FilePath) (w : World)
      → ((e : Error) × ((rename_loop env u left tmp w).0 ≡ err e)
          × ((rename_loop env u left tmp w).1.files ≡ w.files))
        ⊎ ((n : Node) × ((rename_loop env u left tmp w).0 ≡ ok tt)
            × (find tmp w.files ≡ some n)
            × ((rename_loop env u left tmp w).1.files ≡ store u.path n (erase tmp w.files)))
  unfolding rename_loop
  rename_loop_moves zero tmp w = elim (Result-cases (os_rename env tmp u.path w).0) [
    | inl (e, bad) ↦ inl (
      install_failed env u e,
      ground (arith, bad),
      ground (arith, bad, os_rename_err env tmp u.path w bad),
    )
    | inr (a, fine) ↦
        let (n, there, files) = os_rename_ok env tmp u.path w fine in
        inr (n, ground (arith, fine), there, ground (arith, fine, files))
  ]
  rename_loop_moves (suc left) tmp w = elim (Result-cases (os_rename env tmp u.path w).0) [
    | inr (a, fine) ↦
        let (n, there, files) = os_rename_ok env tmp u.path w fine in
        inr (n, ground (arith, fine), there, ground (arith, fine, files))
    | inl (e, bad) ↦
        let w1 = (os_rename env tmp u.path w).1 in
        let w2 = (sleep env install_retry_delay w1).1 in
        let same : w2.files ≡ w.files = files-sleep w1 ∙ os_rename_err env tmp u.path w bad in
        elim (Bool-cases (sleep env install_retry_delay w1).0) [
          | inr stopped ↦ inl (
            install_failed env u e,
            ground (arith, bad, stopped),
            ground (arith, bad, stopped, same),
          )
          | inl fired ↦ elim (rename_loop_moves left tmp w2) [
            | inl (x, failed, kept) ↦
                inl (x, ground (arith, bad, fired, failed), ground (arith, bad, fired, kept, same))
            | inr (n, done, there, moved) ↦ inr (
              n,
              ground (arith, bad, fired, done),
              ground (arith, there, same),
              ground (arith, bad, fired, moved, same),
            )
          ]
        ]
  ]

  -- An install moves the temporary file to the payload's path, or fails and leaves every file but the
  -- payload, which is as it was or gone.
  pub install_moves :
      (tmp : FilePath) (w : World)
      → path_eq u.path tmp ≡ false
      → ((e : Error) × ((install env u tmp w).0 ≡ err e)
          × ((q : FilePath)
              → path_eq u.path q ≡ false
              → find q (install env u tmp w).1.files ≡ find q w.files)
          × ((find u.path (install env u tmp w).1.files ≡ none)
              ⊎ (find u.path (install env u tmp w).1.files ≡ find u.path w.files)))
        ⊎ ((n : Node) × ((install env u tmp w).0 ≡ ok tt)
            × (find tmp w.files ≡ some n)
            × (find u.path (install env u tmp w).1.files ≡ some n)
            × (find tmp (install env u tmp w).1.files ≡ none)
            × ((q : FilePath)
                → path_eq u.path q ≡ false
                → path_eq tmp q ≡ false
                → find q (install env u tmp w).1.files ≡ find q w.files))
  unfolding install
  install_moves tmp w apart =
      let w1 = (os_remove env u.path w).1 in
      elim (rename_loop_moves (install_attempts - 1) tmp w1) [
        | inl (e, failed, kept) ↦ inl (
          e,
          failed,
          λ q ne. ground (arith, kept, find-os_remove_ne env u.path q w ne),
          ground (arith, kept, find-os_remove_self env u.path w),
        )
        | inr (n, done, there, moved) ↦ inr (
          n,
          done,
          ground (arith, there, find-os_remove_ne env u.path tmp w apart),
          ground
              (arith, moved, find-store u.path u.path n (erase tmp w1.files), path_eq_refl u.path),
          ground (
            arith,
            moved,
            apart,
            find-store u.path tmp n (erase tmp w1.files),
            find-erase tmp tmp w1.files,
            path_eq_refl tmp,
          ),
          λ q ne ne'. ground (
            arith,
            moved,
            find-store u.path q n (erase tmp w1.files),
            find-erase tmp q w1.files,
            ne,
            ne',
            find-os_remove_ne env u.path q w ne,
          ),
        )
      ]
