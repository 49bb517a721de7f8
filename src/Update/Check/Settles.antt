-- ===== src/Update/Check/Settles.antt =====
-- A check of update.go that follows a download finds that there is nothing to do.
use winsvr.Base.{
  ℕ, ◌+◌, ◌<◌, ◌≡◌, ◌≢◌, sym, ap, subst, ◌∙◌, true, false, some, none, [], arith, length, inl, inr,
  Bool-cases,
}
use winsvr.Base.Bytes.{Bytes, text, bytes_eq, bytes_eq_iff}
use winsvr.Go.Error.{ok}
use winsvr.Go.World.{Env, World, Node, Method, Response, Op, next}
use Op.{op_open, op_read, op_write, op_stat}
use winsvr.Go.Exec.{◌>>=◌, continue}
use winsvr.Go.Files.{find}
use winsvr.Go.Os.{os_open, os_stat, read_all, syscall, existing, send, emit}
use winsvr.Framework.Utf8.{is_valid_utf8}
use winsvr.Update.Config.{Updater, PayloadInfo, Codec, state_path}
use winsvr.Update.Checksum.{crc64, file_crc64}
use winsvr.Update.Sweep.{sweep_temps}
use winsvr.Update.Fetch.{head, do_request, accept_status, require_etag}
use winsvr.Update.Fetch.Requests.{files-head}
use winsvr.Update.Fetch.Outcome.{IsSane}
use winsvr.Update.Check.{
  load_state, same_sum, cannot_run, matches_installed, locally_changed, act_on, check,
  ensure_latest,
}
use winsvr.Update.Check.Parts.{files-load_state}
use winsvr.Update.Check.Promises.{
  payload-sweep, state-sweep, ReadsBack, ensure_latest_recorded, ensure_latest_current,
}

abbrev described : Bytes → Bytes → PayloadInfo
described content etag = record { etag = etag; crc64 = crc64 content }

module _ (env : Env) (codec : Codec) (u : Updater) where
  -- No call that only reads fails.
  pub record IsReadable : Type 0 where
    pub opens : (t : ℕ) → env.fault t op_open ≡ none
    pub reads : (t : ℕ) → env.fault t op_read ≡ none
    pub stats : (t : ℕ) → env.fault t op_stat ≡ none

  -- The server answers every HEAD with this ETag, which is not empty.
  abbrev pub Serves : Bytes → Type 0
  Serves etag =
      (etag ≢ [])
      × ((t : ℕ)
          → (resp : Response) × (env.http t Method.head u.url ≡ ok resp)
            × (resp.status ≡ 200)
            × (resp.etag ≡ etag))

  load_state_found :
      IsReadable
      → (w : World) (m : Node) → find (state_path u) w.files ≡ some m
      → (load_state env codec u w).0 ≡ codec.decode m.content
  unfolding load_state os_open read_all syscall existing next ◌>>=◌ continue
  load_state_found readable w m there =
      ground (arith, readable.opens w.tick, readable.reads (w.tick + 1), there)

  matches_installed_found :
      IsReadable
      → (w : World) (n : Node) (want : ℕ) → find u.path w.files ≡ some n
      → 0 < length n.content
      → crc64 n.content ≡ want
      → (matches_installed env codec u want w).0 ≡ true
  unfolding matches_installed same_sum cannot_run file_crc64 os_stat os_open read_all syscall
      existing next ◌>>=◌ continue
  matches_installed_found readable w n want there some_bytes sum = ground (
    arith,
    readable.stats w.tick,
    readable.opens (w.tick + 1),
    readable.reads (w.tick + 1 + 1),
    there,
    some_bytes,
    sum,
  )

  head_served :
      (etag : Bytes)
      → Serves etag
      → (w : World) → (head env u w).0 ≡ ok (record { etag = etag; crc64 = 0 })
  unfolding head do_request accept_status require_etag send emit next ◌>>=◌ continue
  head_served etag (real, serves) w =
      let (resp, got, fine, same) = serves w.tick in
      let named : bytes_eq resp.etag (text "") ≡ false =
        elim (Bool-cases (bytes_eq resp.etag (text ""))) [
          | inl empty ↦ absurd (real (sym same ∙ (bytes_eq_iff resp.etag (text "")).0 empty))
          | inr named ↦ named
        ] in
      ground (arith, got, fine, same, named)

  act_on_unchanged :
      IsReadable
      → (cur rem : PayloadInfo) (w : World) (n : Node) → find u.path w.files ≡ some n
      → 0 < length n.content
      → crc64 n.content ≡ cur.crc64
      → rem.etag ≡ cur.etag
      → (act_on env codec u cur rem w).0 ≡ ok false
  unfolding act_on locally_changed
  act_on_unchanged readable cur rem w n there some_bytes sum same = ground (
    arith,
    matches_installed_found readable w n cur.crc64 there some_bytes sum,
    (bytes_eq_iff rem.etag cur.etag).1 same,
  )

  -- The record, the payload and the server agree: the check reports no update.
  ensure_latest_agrees :
      IsReadable
      → (etag : Bytes) → Serves etag
      → (w : World) (m n : Node) → find (state_path u) w.files ≡ some m
      → find u.path w.files ≡ some n
      → 0 < length n.content
      → codec.decode m.content ≡ record { etag = etag; crc64 = crc64 n.content }
      → (ensure_latest env codec u w).0 ≡ ok false
  unfolding ensure_latest check ◌>>=◌ continue
  ensure_latest_agrees readable etag serves w m n state payload some_bytes agrees =
      let w0 = sweep_temps env u w in
      let w1 = (load_state env codec u w0).1 in
      let w2 = (head env u w1).1 in
      let cur = (load_state env codec u w0).0 in
      let cur_is : cur ≡ record { etag = etag; crc64 = crc64 n.content } =
        load_state_found readable w0 m (state-sweep env u w ∙ state) ∙ agrees in
      let files : w2.files ≡ w0.files = files-head env u w1 ∙ files-load_state env codec u w0 in
      let there : find u.path w2.files ≡ some n =
        ap (find u.path) files ∙ (payload-sweep env u w ∙ payload) in
      let rem : PayloadInfo = record { etag = etag; crc64 = 0 } in
      ground (
        arith,
        head_served etag serves w1,
        act_on_unchanged readable cur rem w2 n there some_bytes
            (sym (ap (λ (i : PayloadInfo). i.crc64) cur_is))
            (sym (ap (λ (i : PayloadInfo). i.etag) cur_is)),
      )

  -- A download is final. Let MaxBytes fit an int64, no body have math.MaxInt64 bytes, no call that
  -- only reads fail and no write, a record whose ETag is valid UTF-8 be read back as it was encoded,
  -- and the server answer every HEAD with status 200 and one ETag that is valid UTF-8 and not empty,
  -- which is also that of every answer to a GET. Then after a check that reports a download, any later check that finds the payload and the state file as they were
  -- left reports that nothing is to be done, and leaves both as they are.
  pub ensure_latest_settles :
      IsSane env u
      → IsReadable
      → ((t : ℕ) → env.fault t op_write ≡ none)
      → ReadsBack codec
      → (etag : Bytes) → is_valid_utf8 etag ≡ true
      → Serves etag
      → ((t : ℕ) (resp : Response) → env.http t Method.get u.url ≡ ok resp → resp.etag ≡ etag)
      → (w w1 w2 : World) → ensure_latest env codec u w ≡ (ok true, w1)
      → find u.path w2.files ≡ find u.path w1.files
      → find (state_path u) w2.files ≡ find (state_path u) w1.files
      → ((ensure_latest env codec u w2).0 ≡ ok false)
        × (find u.path (ensure_latest env codec u w2).1.files ≡ find u.path w1.files)
        × (find (state_path u) (ensure_latest env codec u w2).1.files
            ≡ find (state_path u) w1.files)
  ensure_latest_settles sane readable writes reads_back etag valid serves gets w w1 w2 h payload
        state =
      let (n, m, at, recorded_at, (t, resp, got, _, _, _, _, is, some_bytes, _)) =
        ensure_latest_recorded env codec u sane readable.opens writes reads_back
          (λ t resp got. subst (λ x. is_valid_utf8 x ≡ true) (sym (gets t resp got)) valid) w w1
          h in
      let agrees : codec.decode m.content ≡ record { etag = etag; crc64 = crc64 n.content } =
        is ∙ ap (described n.content) (gets t resp got) in
      let done =
        ensure_latest_agrees readable etag serves w2 m n (state ∙ recorded_at) (payload ∙ at)
          some_bytes agrees in
      let (kept, kept_state, _) =
        ensure_latest_current env codec u w2 (ensure_latest env codec u w2).1
          (ap (λ r. (r, (ensure_latest env codec u w2).1)) done) in
      (done, kept ∙ payload, kept_state ∙ state)
