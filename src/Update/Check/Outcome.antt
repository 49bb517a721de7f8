-- ===== src/Update/Check/Outcome.antt =====
-- What a check of update.go promises, by its three ends: up to date, downloaded, failed.
use winsvr.Base.{
  ◌<◌, ◌≡◌, sym, ap, subst, ◌∙◌, ◌⊎◌, inl, inr, Bool, not, ◌&&◌, true, false, some, arith,
  Bool-cases, length,
}
use winsvr.Base.Bytes.{bytes_eq, bytes_eq_iff}
use winsvr.Go.Error.{Error, Result, ok, err}
use winsvr.Go.World.{Env, World, Node}
use winsvr.Go.Exec.{◌>>=◌}
use winsvr.Go.Files.{find}
use winsvr.Go.Effects.{on_ok, on_err}
use winsvr.Update.Config.{Updater, PayloadInfo, Codec}
use winsvr.Update.Checksum.{crc64}
use winsvr.Update.Fetch.Outcome.{IsSane}
use winsvr.Update.Install.{download}
use winsvr.Update.Install.Outcome.{Installed, NotInstalled, download_ok, download_err}
use winsvr.Update.Check.{
  locally_changed, log_check, finish_download, act_on, record_state, matches_installed,
}
use winsvr.Update.Check.Parts.{matches_installed-true, files-locally_changed, files-log_check}

module _ (env : Env) (codec : Codec) (u : Updater) where
  module _ (cur rem : PayloadInfo) (w : World) where
    abbrev newer : Bool
    newer = not (bytes_eq rem.etag cur.etag)

    abbrev changed : Bool
    changed = (locally_changed env codec u cur newer w).0

    abbrev compared : World
    compared = (locally_changed env codec u cur newer w).1

    files-compared : compared.files ≡ w.files
    files-compared = files-locally_changed env codec u cur newer w

    -- The two ways on, after the comparison.
    act_on_branch :
        (((not newer && not changed) ≡ true)
          × (act_on env codec u cur rem w
              ≡ (ok false, log_check env codec u cur rem newer changed "up-to-date" compared)))
        ⊎ (act_on env codec u cur rem w
            ≡ (download env u rem >>= finish_download env codec u cur rem newer changed) compared)
    unfolding act_on
    act_on_branch = elim (Bool-cases (not newer && not changed)) [
      | inl same ↦ inl (same, rw same)
      | inr differs ↦ inr (rw differs)
    ]

    -- No change seen means that the payload was read and found to match.
    unchanged_matches :
        (not newer && not changed) ≡ true
        → (rem.etag ≡ cur.etag) × ((matches_installed env codec u cur.crc64 w).0 ≡ true)
    unfolding locally_changed
    unchanged_matches h = ((bytes_eq_iff rem.etag cur.etag).0 (ground arith), ground arith)

    pub act_on_current :
        (w' : World)
        → act_on env codec u cur rem w ≡ (ok false, w')
        → (rem.etag ≡ cur.etag)
          × (w'.files ≡ w.files)
          × ((n : Node) × (find u.path w.files ≡ some n)
              × (0 < length n.content)
              × (crc64 n.content ≡ cur.crc64))
    act_on_current w' h = elim act_on_branch [
      | inl (same, e) ↦
          let (etags, matches) = unchanged_matches same in
          let w'_is = ap (λ (x : Result Bool × World). x.1.files) (sym e ∙ h) in
          (
            etags,
            sym w'_is
                ∙ (files-log_check env codec u cur rem newer changed "up-to-date" compared
                    ∙ files-compared),
            matches_installed-true env codec u cur.crc64 w matches,
          )
      | inr e ↦
          on_ok _ _ compared (sym e ∙ h)
            λ info _ finished. absurd (unfold finish_download in (cc finished))
    ]

    files-finished :
        (info : PayloadInfo) (w1 w' : World)
        → finish_download env codec u cur rem newer changed info w1 ≡ (ok true, w')
        → w'.files ≡ (record_state env codec u info w1).files
    unfolding finish_download
    files-finished info w1 w' h =
        sym (ap (λ (x : Result Bool × World). x.1.files) h)
        ∙ files-log_check env codec u cur rem newer changed "downloaded"
            (record_state env codec u info w1)

    pub act_on_downloaded :
        IsSane env u
        → (w' : World) → act_on env codec u cur rem w ≡ (ok true, w')
        → (info : PayloadInfo) × (w1 : World) × Installed env u w.files info w1
          × (w'.files ≡ (record_state env codec u info w1).files)
    act_on_downloaded sane w' h = elim act_on_branch [
      | inl (same, e) ↦ absurd (cc (sym e ∙ h))
      | inr e ↦ on_ok _ _ compared (sym e ∙ h) λ info loaded finished.
          let w1 = (download env u rem compared).1 in
          (
            info,
            w1,
            subst (λ fs. Installed env u fs info w1) files-compared
                (download_ok env u sane rem info compared w1 (ground (arith, loaded))),
            files-finished info w1 w' finished,
          )
    ]

    pub act_on_failed :
        IsSane env u
        → (w' : World) (e : Error) → act_on env codec u cur rem w ≡ (err e, w')
        → NotInstalled env u w.files w'
    act_on_failed sane w' e h = elim act_on_branch [
      | inl (same, q) ↦ absurd (cc (sym q ∙ h))
      | inr q ↦
          on_err _ _ compared (sym q ∙ h)
            (λ failed last.
              subst (λ fs. NotInstalled env u fs w') files-compared
                (download_err env u sane rem compared w' e (ground (arith, failed, last))))
            λ info _ finished. absurd (unfold finish_download in (cc finished))
    ]
