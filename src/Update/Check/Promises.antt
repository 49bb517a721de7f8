-- ===== src/Update/Check/Promises.antt =====
-- What EnsureLatest of update.go promises its caller, on each of its three ends.
use winsvr.Base.{
  ℕ, ◌<◌, ◌≡◌, ◌≢◌, refl, sym, ap, subst, ◌∙◌, ◌⊎◌, inl, inr, true, false, none, some, [], arith,
  length, length-append, Bool-cases,
}
use winsvr.Base.Bytes.{Bytes, text, cut_prefix}
use winsvr.Go.Error.{Error, ok, err}
use winsvr.Go.World.{Env, World, FilePath, Node, Method, Response, path_eq, path_eq_iff, Op}
use Op.{op_open, op_write}
use winsvr.Go.Files.{find}
use winsvr.Go.Effects.{on_ok, on_err}
use winsvr.Framework.Utf8.{is_valid_utf8}
use winsvr.Update.Config.{Updater, PayloadInfo, no_info, Codec, state_path, temp_prefix}
use winsvr.Update.Checksum.{crc64}
use winsvr.Update.Sweep.{is_generated_temp, sweep_temps}
use winsvr.Update.Sweep.Names.{cut-payload, cut-state}
use winsvr.Update.Sweep.Safety.{sweep-only-abandoned}
use winsvr.Update.Fetch.{head}
use winsvr.Update.Fetch.Requests.{files-head, head_ok}
use winsvr.Update.Fetch.Outcome.{IsSane, Kept, Delivered}
use winsvr.Update.Install.Renames.{IsTemp-ne}
use winsvr.Update.Check.{load_state, check, ensure_latest}
use winsvr.Update.Check.Parts.{
  files-load_state, load_state_from, find-record_state_ne, find-record_state_self,
}
use winsvr.Update.Check.Outcome.{act_on_current, act_on_downloaded, act_on_failed}

module _ (env : Env) (u : Updater) where
  not-generated :
      (name : Bytes)
      → cut_prefix name (temp_prefix u) ≡ none
      → is_generated_temp name (temp_prefix u) ≡ false
  unfolding is_generated_temp
  not-generated name h = ground (arith, h)

  find-sweep :
      (p : FilePath) (w : World)
      → cut_prefix p.base (temp_prefix u) ≡ none
      → find p (sweep_temps env u w).files ≡ find p w.files
  find-sweep p w apart = elim (sweep-only-abandoned env u w p) [
    | inl same ↦ same
    | inr ((_, named, _), _) ↦ absurd (cc (not-generated p.base apart, named))
  ]

  pub payload-sweep : (w : World) → find u.path (sweep_temps env u w).files ≡ find u.path w.files
  payload-sweep w = find-sweep u.path w (cut-payload u)

  pub state-sweep :
      (w : World) → find (state_path u) (sweep_temps env u w).files ≡ find (state_path u) w.files
  state-sweep w = find-sweep (state_path u) w (cut-state u)

  pub payload-ne-state : path_eq u.path (state_path u) ≡ false
  unfolding state_path
  payload-ne-state = elim (Bool-cases (path_eq u.path (state_path u))) [
    | inr ne ↦ ne
    | inl same ↦
        let bases =
          ap (λ (p : FilePath). length p.base) ((path_eq_iff u.path (state_path u)).0 same) in
        absurd (omega (arith, bases, length-append u.path.base (text ".update.json")))
  ]

  pub state-ne-payload : path_eq (state_path u) u.path ≡ false
  state-ne-payload = elim (Bool-cases (path_eq (state_path u) u.path)) [
    | inr ne ↦ ne
    | inl same ↦ absurd (
        cc (
          payload-ne-state,
          (path_eq_iff u.path (state_path u)).1 (sym ((path_eq_iff (state_path u) u.path).0 same)),
        ))
  ]

-- What encoding/json documents: a text that is valid UTF-8 is read back as it was encoded.
abbrev pub ReadsBack : Codec → Type 0
ReadsBack codec =
    (i : PayloadInfo)
    → is_valid_utf8 i.etag ≡ true
    → (b : Bytes) × (codec.encode i ≡ ok b) × (codec.decode b ≡ i)

module _ (env : Env) (codec : Codec) (u : Updater) where
  -- The states of a check: with the record loaded, and after the HEAD.
  abbrev recorded : World → PayloadInfo
  recorded w = (load_state env codec u (sweep_temps env u w)).0

  abbrev loaded : World → World
  loaded w = (load_state env codec u (sweep_temps env u w)).1

  abbrev headed_at : World → World
  headed_at w = (head env u (loaded w)).1

  files-headed : (w : World) → (headed_at w).files ≡ (sweep_temps env u w).files
  files-headed w = files-head env u (loaded w) ∙ files-load_state env codec u (sweep_temps env u w)

  -- A record with an ETag was read from the state file.
  recorded_from :
      (w : World)
      → recorded w ≢ no_info
      → (m : Node) × (find (state_path u) (sweep_temps env u w).files ≡ some m)
        × (recorded w ≡ codec.decode m.content)
  recorded_from w h = elim (load_state_from env codec u (sweep_temps env u w)) [
    | inl nothing ↦ absurd (h nothing)
    | inr found ↦ found
  ]

  -- The state file is no temporary file.
  state-Kept :
      (w w' : World)
      → Kept env u (headed_at w).files w'.files (state_path u)
      → find (state_path u) w'.files ≡ find (state_path u) w.files
  state-Kept w w' (inl same) = ground (arith, same, files-headed w, state-sweep env u w)
  state-Kept w w' (inr (is_temp, _)) = absurd (
      ground (
        arith,
        IsTemp-ne env u (state_path u) (state_path u) is_temp (cut-state u),
        (path_eq_iff (state_path u) (state_path u)).1 refl,
      ))

  -- A check that finds the payload up to date changes neither it nor the state file. The server
  -- answered a HEAD with status 200 and an ETag; the state file records that ETag, and the payload is
  -- there, is not empty and has the recorded checksum.
  pub ensure_latest_current :
      (w w' : World)
      → ensure_latest env codec u w ≡ (ok false, w')
      → (find u.path w'.files ≡ find u.path w.files)
        × (find (state_path u) w'.files ≡ find (state_path u) w.files)
        × ((n : Node) × (m : Node) × (t : ℕ) × (resp : Response) × (find u.path w.files ≡ some n)
            × (find (state_path u) w.files ≡ some m)
            × (env.http t Method.head u.url ≡ ok resp)
            × (resp.status ≡ 200)
            × (resp.etag ≢ [])
            × ((codec.decode m.content).etag ≡ resp.etag)
            × ((codec.decode m.content).crc64 ≡ crc64 n.content)
            × (0 < length n.content))
  unfolding ensure_latest check
  ensure_latest_current w w' h = on_ok _ _ (loaded w) h λ rem headed acted.
      let (etags, files, (n, payload, some_bytes, sum)) =
        act_on_current env codec u (recorded w) rem (headed_at w) w' acted in
      let (resp, answer, status, etag, rem_etag) = head_ok env u (loaded w) rem headed in
      let (m, state, decoded) =
        recorded_from w (λ e. etag (sym rem_etag ∙ etags ∙ ap (λ (i : PayloadInfo). i.etag) e)) in
      (
        ground (arith, files, files-headed w, payload-sweep env u w),
        ground (arith, files, files-headed w, state-sweep env u w),
        (
          n,
          m,
          (loaded w).tick,
          resp,
          ground (arith, payload, files-headed w, payload-sweep env u w),
          ground (arith, state, state-sweep env u w),
          answer,
          status,
          etag,
          ground (arith, decoded, etags, rem_etag),
          ground (arith, decoded, sum),
          some_bytes,
        ),
      )

  -- Where MaxBytes fits an int64 and no body has math.MaxInt64 bytes, a check that reports a download
  -- leaves at the payload's path the whole body of one answer of the server to a GET, with status
  -- 200 and an ETag; it is not empty and not over the limit.
  pub ensure_latest_updated :
      IsSane env u
      → (w w' : World) → ensure_latest env codec u w ≡ (ok true, w')
      → (info : PayloadInfo) × (n : Node) × (find u.path w'.files ≡ some n)
        × Delivered env u info n.content
  unfolding ensure_latest check
  ensure_latest_updated sane w w' h = on_ok _ _ (loaded w) h λ rem headed acted.
      let (info, w1, ((n, there, delivered), _), files) =
        act_on_downloaded env codec u (recorded w) rem (headed_at w) sane w' acted in
      (
        info,
        n,
        ground (
          arith,
          there,
          files,
          find-record_state_ne env codec u info w1 u.path (state-ne-payload env u),
        ),
        delivered,
      )

  -- Where MaxBytes fits an int64 and no body has math.MaxInt64 bytes, a check that fails leaves at the
  -- payload's path what was there, or nothing, and does not change the state file.
  pub ensure_latest_failed :
      IsSane env u
      → (w w' : World) (e : Error) → ensure_latest env codec u w ≡ (err e, w')
      → ((find u.path w'.files ≡ find u.path w.files) ⊎ (find u.path w'.files ≡ none))
        × (find (state_path u) w'.files ≡ find (state_path u) w.files)
  unfolding ensure_latest check
  ensure_latest_failed sane w w' e h =
      on_err _ _ (loaded w) h
        (λ failed last. (
          inl (ground (arith, last, files-headed w, payload-sweep env u w)),
          ground (arith, last, files-headed w, state-sweep env u w),
        ))
        λ rem headed acted.
          let (payload, others) =
            act_on_failed env codec u (recorded w) rem (headed_at w) sane w' e acted in
          (
            ground (arith, payload, files-headed w, payload-sweep env u w),
            state-Kept w w' (others (state_path u) (payload-ne-state env u)),
          )

  -- Where MaxBytes fits an int64, no body has math.MaxInt64 bytes, no open and no write fails, a
  -- record whose ETag is valid UTF-8 is read back as it was encoded, and the ETag of every answer to
  -- a GET is valid UTF-8, a check that reports a download leaves a state file that describes the
  -- payload beside it: the ETag of the answer to the GET whose body the payload is, and the
  -- payload's own checksum.
  pub ensure_latest_recorded :
      IsSane env u
      → ((t : ℕ) → env.fault t op_open ≡ none)
      → ((t : ℕ) → env.fault t op_write ≡ none)
      → ReadsBack codec
      → ((t : ℕ) (resp : Response)
          → env.http t Method.get u.url ≡ ok resp
          → is_valid_utf8 resp.etag ≡ true)
      → (w w' : World) → ensure_latest env codec u w ≡ (ok true, w')
      → (n : Node) × (m : Node) × (find u.path w'.files ≡ some n)
        × (find (state_path u) w'.files ≡ some m)
        × Delivered env u (codec.decode m.content) n.content
  unfolding ensure_latest check
  ensure_latest_recorded sane opens writes reads_back valid w w' h =
      on_ok _ _ (loaded w) h λ rem headed acted.
        let (info, w1, ((n, there, delivered), _), files) =
          act_on_downloaded env codec u (recorded w) rem (headed_at w) sane w' acted in
        let (t, resp, got, _, _, _, _, described, _, _) = delivered in
        let (b, encoded, decoded) = reads_back info (
          subst (λ etag. is_valid_utf8 etag ≡ true)
            (sym (ap (λ (i : PayloadInfo). i.etag) described)) (valid t resp got)) in
        let (m, state, content) =
          find-record_state_self env codec u opens writes info b w1 encoded in
        (
          n,
          m,
          ground (
            arith,
            there,
            files,
            find-record_state_ne env codec u info w1 u.path (state-ne-payload env u),
          ),
          ground (arith, state, files),
          subst (λ i. Delivered env u i n.content)
              (sym decoded ∙ ap (λ c. codec.decode c) (sym content)) delivered,
        )
