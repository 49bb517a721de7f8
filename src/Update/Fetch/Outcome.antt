-- ===== src/Update/Fetch/Outcome.antt =====
-- What `fetch` of update.go leaves behind: a temporary file that holds what the server sent, or an
-- error and nothing.
use winsvr.Base.{
  ℕ, ◌+◌, ap, subst, ◌≤◌, ◌<◌, ◌≡◌, ◌≢◌, sym, ◌∙◌, ◌⊎◌, inl, inr, false, none, some, [], ◌++◌,
  arith, Bool-cases, length,
}
use winsvr.Base.Int.{pos, pos_part, max_int64, ◌≤ℤ◌}
use winsvr.Base.Bytes.{Bytes}
use winsvr.Go.Error.{Error, Result, ok, err}
use winsvr.Go.World.{Env, World, FilePath, Node, Method, Response, Op, path_eq, path_eq_iff}
use winsvr.Go.Files.{FileMap, find, find-store}
use winsvr.Go.Os.{file, os_create_temp}
use winsvr.Go.Effects.{on_ok, on_err, os_create_temp_ok, os_create_temp_err}
use winsvr.Update.Config.{Updater, PayloadInfo, max_bytes, temp_prefix}
use winsvr.Update.Checksum.{crc64}
use winsvr.Update.Fetch.{open_body, fetch, fill_temp}
use winsvr.Update.Fetch.Requests.{files-open_body, open_body_ok}
use winsvr.Update.Fetch.Body.{find-fill_temp_ne, find-fill_temp_err, fill_temp_ok, Accepted-whole}

-- No server sends math.MaxInt64 bytes, and MaxBytes is an int64.
pub record IsSane (env : Env) (u : Updater) : Type 0 where
  pub finite :
      (t : ℕ) (m : Method) (url : Bytes) (resp : Response)
      → env.http t m url ≡ ok resp
      → length resp.body < max_int64
  pub limit_fits : pos_part u.max_bytes ≤ max_int64

module _ (env : Env) (u : Updater) where
  -- A path that os.CreateTemp may give for this payload.
  abbrev pub IsTemp : FilePath → Type 0
  IsTemp p = (s : Bytes) × (p ≡ record { dir = u.path.dir; base = temp_prefix u ++ s })

  -- Some os.Remove fails.
  abbrev pub RemoveFails : Type 0
  RemoveFails = (t : ℕ) × (e : Error) × (env.fault t Op.op_remove ≡ some e)

  -- A file is as it was, or it is a temporary file that could not be removed.
  abbrev pub Kept : FileMap → FileMap → FilePath → Type 0
  Kept fs fs' p = (find p fs' ≡ find p fs) ⊎ (IsTemp p × RemoveFails)

  -- `content` is the whole body of one answer to a GET, and `got` describes it.
  abbrev pub Delivered : PayloadInfo → Bytes → Type 0
  Delivered got content =
      (t : ℕ) × (resp : Response) × (env.http t Method.get u.url ≡ ok resp)
      × (resp.status ≡ 200)
      × (resp.etag ≢ [])
      × (resp.broken ≡ none)
      × (content ≡ resp.body)
      × (got ≡ record { etag = resp.etag; crc64 = crc64 content })
      × (0 < length content)
      × (pos (length content) ≤ℤ max_bytes u)

  pub record Fetched (fs : FileMap) (tmp : FilePath) (got : PayloadInfo) (w' : World) : Type 0 where
    pub is_temp : IsTemp tmp
    pub fresh : find tmp fs ≡ none
    pub others : (p : FilePath) → path_eq tmp p ≡ false → find p w'.files ≡ find p fs
    pub node : Node
    pub there : find tmp w'.files ≡ some node
    pub delivered : Delivered got node.content

  limit-le : IsSane env u → pos_part (max_bytes u) ≤ max_int64
  unfolding max_bytes
  limit-le sane = ground (arith, sane.limit_fits)

  filled :
      IsSane env u
      → (resp : Response) (t : ℕ) → env.http t Method.get u.url ≡ ok resp
      → resp.status ≡ 200
      → resp.etag ≢ []
      → (w w' : World) (tmp : FilePath) (got : PayloadInfo) (p : FilePath)
      → fill_temp env u resp p w ≡ (ok (tmp, got), w')
      → (tmp ≡ p) × ((n : Node) × (find p w'.files ≡ some n) × Delivered got n.content)
  filled sane resp t answer status etag w w' tmp got p h =
      let (same, info, (n, there, content), (some_bytes, under, well)) =
        fill_temp_ok env u p resp w w' tmp got h in
      let (whole, ended) =
        Accepted-whole env u p resp (limit-le sane) (sane.finite t Method.get u.url resp answer)
          (some_bytes, under, well) in
      (
        same,
        (
          n,
          there,
          (
            t,
            resp,
            answer,
            status,
            etag,
            ended,
            content ∙ whole,
            ground (arith, info, content),
            ground (arith, content, some_bytes),
            ground (arith, content, under),
          ),
        ),
      )

  module _ (w : World) where
    -- The state when the temporary file is made, and when it has been.
    abbrev opened_at : World
    opened_at = (open_body env u w).1

    abbrev created_at : World
    created_at = (os_create_temp env u.path.dir (temp_prefix u) opened_at).1

    other_files :
        (resp : Response) (p q : FilePath) {r : Result (FilePath × PayloadInfo)} (w' : World)
        → (os_create_temp env u.path.dir (temp_prefix u) opened_at).0 ≡ ok p
        → fill_temp env u resp p created_at ≡ (r, w')
        → path_eq p q ≡ false
        → find q w'.files ≡ find q w.files
    other_files resp p q w' created filling ne =
        let (_, _, files) = os_create_temp_ok env u.path.dir (temp_prefix u) opened_at created in
        ground (
          arith,
          ne,
          files,
          files-open_body env u w,
          ap (λ (x : Result (FilePath × PayloadInfo) × World). x.1) filling,
          find-fill_temp_ne env u p resp q created_at ne,
          find-store p q (file [] (env.now (opened_at.tick + 1))) opened_at.files,
        )

  -- Where MaxBytes fits an int64 and no body has math.MaxInt64 bytes, a fetch that succeeds has made one
  -- new file beside the payload. It holds the whole body of an answer to a GET, not over the limit
  -- and not empty; the result is that answer's ETag with the checksum of those bytes. No other file
  -- changes.
  pub fetch_ok :
      IsSane env u
      → (w w' : World) (tmp : FilePath) (got : PayloadInfo) → fetch env u w ≡ (ok (tmp, got), w')
      → Fetched w.files tmp got w'
  unfolding fetch
  fetch_ok sane w w' tmp got h = on_ok _ _ w h λ resp opened rest.
      on_ok _ _ _ rest λ p created filling.
        let (answer, status, etag) = open_body_ok env u w resp opened in
        let (is_temp, fresh, _) =
          os_create_temp_ok env u.path.dir (temp_prefix u) (opened_at w) created in
        let (same, (n, there, delivered)) =
          filled sane resp w.tick answer status etag (created_at w) w' tmp got p filling in
        subst (λ q. Fetched w.files q got w') (sym same)
          (record {
            is_temp = is_temp;
            fresh = ground (arith, fresh, files-open_body env u w);
            others = λ q ne. other_files w resp p q w' created filling ne;
            node = n;
            there = there;
            delivered = delivered;
          })

  -- A fetch that fails changes no file, but for a temporary file of its own that cannot be removed.
  pub fetch_err :
      (w w' : World) (e : Error)
      → fetch env u w ≡ (err e, w')
      → (p : FilePath) → Kept w.files w'.files p
  unfolding fetch
  fetch_err w w' e h q =
      on_err _ _ w h (λ r last. inl (ground (arith, last, files-open_body env u w)))
        λ resp opened rest.
          on_err _ _ _ rest
            (λ r last. inl (
              ground (
                arith,
                last,
                files-open_body env u w,
                os_create_temp_err env u.path.dir (temp_prefix u) (opened_at w) r,
              )))
            λ p created filling.
              let (is_temp, fresh, _) =
                os_create_temp_ok env u.path.dir (temp_prefix u) (opened_at w) created in
              elim (Bool-cases (path_eq p q)) [
                | inr ne ↦ inl (other_files w resp p q w' created filling ne)
                | inl here ↦
                    subst (λ x. Kept w.files w'.files x) ((path_eq_iff p q).0 here)
                      (elim (find-fill_temp_err env u p resp (created_at w) w' e filling) [
                        | inl gone ↦ inl (ground (arith, gone, fresh, files-open_body env u w))
                        | inr fails ↦ inr (is_temp, fails)
                      ])
              ]
