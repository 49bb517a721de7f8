-- ===== src/Update/Install/Outcome.antt =====
-- What `download` of update.go leaves at the payload's path, and that it leaves nothing else.
use winsvr.Base.{
  ℕ, zero, suc, ◌+◌, ◌≡◌, refl, sym, subst, ◌∙◌, ◌⊎◌, inl, inr, not, false, none, some, arith,
  Bool-cases,
}
use winsvr.Base.Bytes.{bytes_eq}
use winsvr.Go.Error.{Error, ok, err}
use winsvr.Go.World.{Env, World, FilePath, Node, path_eq, path_eq_iff}
use winsvr.Go.Files.{FileMap, find}
use winsvr.Go.Os.{log_record, os_remove}
use winsvr.Go.Effects.{on_ok, on_err, find-os_remove_ne, find-os_remove_self}
use winsvr.Update.Config.{Updater, PayloadInfo, download_attempts}
use winsvr.Update.Fetch.{fetch, discard}
use winsvr.Update.Fetch.Outcome.{IsTemp, Kept, Delivered, Fetched, IsSane, fetch_ok, fetch_err}
use winsvr.Update.Sweep.Names.{cut-payload}
use winsvr.Update.Install.{
  log_changed, install, settle_install, install_or_discard, download_loop, download,
}
use winsvr.Update.Install.Renames.{IsTemp-ne, install_moves}

module _ (env : Env) (u : Updater) where
  pub Kept-trans :
      (a b c : FileMap) (p : FilePath) → Kept env u a b p → Kept env u b c p → Kept env u a c p
  Kept-trans a b c p (inl e) (inl f) = inl (f ∙ e)
  Kept-trans a b c p (inr x) k = inr x
  Kept-trans a b c p (inl e) (inr x) = inr x

  temp-ne-payload : (tmp : FilePath) → IsTemp env u tmp → path_eq tmp u.path ≡ false
  temp-ne-payload tmp t = IsTemp-ne env u tmp u.path t (cut-payload u)

  path_eq-sym : (p q : FilePath) → path_eq p q ≡ false → path_eq q p ≡ false
  path_eq-sym p q h = elim (Bool-cases (path_eq q p)) [
    | inr ne ↦ ne
    | inl same ↦ absurd (ground (arith, h, (path_eq_iff p q).1 (sym ((path_eq_iff q p).0 same))))
  ]

  -- What becomes of the files when a fetched file is thrown away, from those before the fetch.
  Kept-discard :
      (fs : FileMap) (tmp : FilePath) (w : World)
      → IsTemp env u tmp
      → find tmp fs ≡ none
      → (p : FilePath) → (path_eq tmp p ≡ false → find p w.files ≡ find p fs)
      → Kept env u fs (discard env u tmp w).files p
  unfolding discard
  Kept-discard fs tmp w is_temp fresh p others = elim (Bool-cases (path_eq tmp p)) [
    | inr ne ↦ inl (find-os_remove_ne env tmp p w ne ∙ others ne)
    | inl here ↦
        subst (λ x. Kept env u fs (os_remove env tmp w).1.files x) ((path_eq_iff tmp p).0 here)
          (elim (find-os_remove_self env tmp w) [
            | inl gone ↦ inl (gone ∙ sym fresh)
            | inr (e, bad, _) ↦ inr (is_temp, (w.tick, e, bad))
          ])
  ]

  find-discard_ne :
      (tmp p : FilePath) (w : World)
      → path_eq tmp p ≡ false
      → find p (discard env u tmp w).files ≡ find p w.files
  unfolding discard
  find-discard_ne tmp p w ne = find-os_remove_ne env tmp p w ne

  files-log_changed :
      (attempt : ℕ) (want got : PayloadInfo) (w : World)
      → (log_changed env u attempt want got w).files ≡ w.files
  unfolding log_changed log_record
  files-log_changed attempt want got w = ground arith

  -- How a download may end, by the files before it.
  abbrev pub Installed : FileMap → PayloadInfo → World → Type 0
  Installed fs info w' =
      ((n : Node) × (find u.path w'.files ≡ some n) × Delivered env u info n.content)
      × ((p : FilePath) → path_eq u.path p ≡ false → Kept env u fs w'.files p)

  abbrev pub NotInstalled : FileMap → World → Type 0
  NotInstalled fs w' =
      ((find u.path w'.files ≡ none) ⊎ (find u.path w'.files ≡ find u.path fs))
      × ((p : FilePath) → path_eq u.path p ≡ false → Kept env u fs w'.files p)

  module _ (fs : FileMap) (tmp : FilePath) (got : PayloadInfo) (w : World)
      (f : Fetched env u fs tmp got w) where
    apart : path_eq u.path tmp ≡ false
    apart = path_eq-sym tmp u.path (temp-ne-payload tmp f.is_temp)

    pub install_or_discard_ok :
        (info : PayloadInfo) (w' : World)
        → install_or_discard env u tmp got w ≡ (ok info, w')
        → Installed fs info w'
    unfolding install_or_discard settle_install
    install_or_discard_ok info w' h = elim (install_moves env u tmp w apart) [
      | inl (e, failed, _, _) ↦ absurd (ground (arith, failed))
      | inr (n, done, there, placed, gone, others) ↦
          let last : (install env u tmp w).1 ≡ w' = ground (arith, done) in
          let info_is : got ≡ info = ground (arith, done) in
          (
            (
              n,
              ground (arith, last, placed),
              subst (λ i. Delivered env u i n.content) info_is
                  (subst (λ (m : Node). Delivered env u got m.content) {x = f.node} {y = n}
                    (ground (arith, there, f.there)) f.delivered),
            ),
            λ p ne. elim (Bool-cases (path_eq tmp p)) [
              | inr ne' ↦ inl (ground (arith, last, others p ne ne', f.others p ne'))
              | inl here ↦ inl (
                  subst (λ x. find x w'.files ≡ find x fs) ((path_eq_iff tmp p).0 here)
                    (ground (arith, last, gone, f.fresh)))
            ],
          )
    ]

    pub install_or_discard_err :
        (e : Error) (w' : World)
        → install_or_discard env u tmp got w ≡ (err e, w')
        → NotInstalled fs w'
    unfolding install_or_discard settle_install
    install_or_discard_err e w' h = elim (install_moves env u tmp w apart) [
      | inr (n, done, _, _, _, _) ↦ absurd (ground (arith, done))
      | inl (x, failed, others, payload) ↦
          let w1 = (install env u tmp w).1 in
          let last : discard env u tmp w1 ≡ w' = ground (arith, failed) in
          subst (λ v. NotInstalled fs v) last
            (
              ground (
                arith,
                payload,
                f.others u.path (temp-ne-payload tmp f.is_temp),
                find-discard_ne tmp u.path w1 (temp-ne-payload tmp f.is_temp),
              ),
              λ p ne.
                  Kept-discard fs tmp w1 f.is_temp f.fresh p (λ ne'. others p ne ∙ f.others p ne'),
            )
    ]

  Installed-after :
      (fs gs : FileMap) (info : PayloadInfo) (w' : World)
      → ((p : FilePath) → Kept env u fs gs p)
      → Installed gs info w'
      → Installed fs info w'
  Installed-after fs gs info w' before (payload, rest) =
      (payload, λ p ne. Kept-trans fs gs w'.files p (before p) (rest p ne))

  NotInstalled-after :
      (fs gs : FileMap) (w' : World)
      → find u.path gs ≡ find u.path fs
      → ((p : FilePath) → Kept env u fs gs p)
      → NotInstalled gs w'
      → NotInstalled fs w'
  NotInstalled-after fs gs w' same before (payload, rest) =
      (ground (arith, payload, same), λ p ne. Kept-trans fs gs w'.files p (before p) (rest p ne))

  -- The payload itself is never a temporary file.
  Kept-payload : (fs gs : FileMap) → Kept env u fs gs u.path → find u.path gs ≡ find u.path fs
  Kept-payload fs gs (inl same) = same
  Kept-payload fs gs (inr (is_temp, _)) =
      absurd (ground (arith, temp-ne-payload u.path is_temp, (path_eq_iff u.path u.path).1 refl))

  module _ (sane : IsSane env u) where
    -- A round that read another release: the file is thrown away.
    Kept-again :
        (attempt : ℕ) (want got : PayloadInfo) (fs : FileMap) (tmp : FilePath) (w : World)
        → Fetched env u fs tmp got w
        → (p : FilePath)
        → Kept env u fs (log_changed env u attempt want got (discard env u tmp w)).files p
    Kept-again attempt want got fs tmp w f p =
        subst (λ gs. Kept env u fs gs p)
          (sym (files-log_changed attempt want got (discard env u tmp w)))
          (Kept-discard fs tmp w f.is_temp f.fresh p (f.others p))

    download_loop_ok :
        (left attempt : ℕ) (want info : PayloadInfo) (w w' : World)
        → download_loop env u left attempt want w ≡ (ok info, w')
        → Installed w.files info w'
    unfolding download_loop
    download_loop_ok zero attempt want info w w' h = absurd (cc)
    download_loop_ok (suc left) attempt want info w w' h = on_ok _ _ w h λ (tmp, got) fetched rest.
        let f = fetch_ok env u sane w (fetch env u w).1 tmp got (ground (arith, fetched)) in
        elim (Bool-cases (not (bytes_eq got.etag want.etag))) [
          | inr same ↦
              install_or_discard_ok w.files tmp got (fetch env u w).1 f info w' (rw same at rest)
          | inl other ↦
              Installed-after w.files _ info w'
                (Kept-again attempt want got w.files tmp (fetch env u w).1 f)
                (download_loop_ok left (attempt + 1) (record want { etag = got.etag }) info _ w'
                  (rw other at rest))
        ]

    download_loop_err :
        (left attempt : ℕ) (want : PayloadInfo) (w w' : World) (e : Error)
        → download_loop env u left attempt want w ≡ (err e, w')
        → NotInstalled w.files w'
    unfolding download_loop
    download_loop_err zero attempt want w w' e h =
        let last : w ≡ w' = ground arith in
        (inr (ground (arith, last)), λ p ne. inl (ground (arith, last)))
    download_loop_err (suc left) attempt want w w' e h =
        on_err _ _ w h
          (λ r last.
            let kept = fetch_err env u w w' e (ground (arith, r, last)) in
            (inr (Kept-payload w.files w'.files (kept u.path)), λ p ne. kept p))
          λ (tmp, got) fetched rest.
            let f = fetch_ok env u sane w (fetch env u w).1 tmp got (ground (arith, fetched)) in
            elim (Bool-cases (not (bytes_eq got.etag want.etag))) [
              | inr same ↦
                  install_or_discard_err w.files tmp got (fetch env u w).1 f e w' (rw same at rest)
              | inl other ↦
                  let kept = Kept-again attempt want got w.files tmp (fetch env u w).1 f in
                  NotInstalled-after w.files _ w' (Kept-payload w.files _ (kept u.path)) kept (
                    download_loop_err left (attempt + 1) (record want { etag = got.etag }) _ w' e
                      (rw other at rest))
            ]

    -- Where MaxBytes fits an int64 and no body has math.MaxInt64 bytes, a download that succeeds has put
    -- at the payload's path the whole body of one answer to a GET, not empty and not over the limit,
    -- and returns that answer's ETag with the checksum of those bytes. Every other file is as it was,
    -- but for one of a temporary file's name, where some os.Remove fails.
    pub download_ok :
        (want info : PayloadInfo) (w w' : World)
        → download env u want w ≡ (ok info, w')
        → Installed w.files info w'
    unfolding download
    download_ok want info w w' h = download_loop_ok download_attempts 1 want info w w' h

    -- Where MaxBytes fits an int64 and no body has math.MaxInt64 bytes, a download that fails leaves at
    -- the payload's path what was there, or nothing, and every other file as it was, but for one of
    -- a temporary file's name, where some os.Remove fails.
    pub download_err :
        (want : PayloadInfo) (w w' : World) (e : Error)
        → download env u want w ≡ (err e, w')
        → NotInstalled w.files w'
    unfolding download
    download_err want w w' e h = download_loop_err download_attempts 1 want w w' e h
