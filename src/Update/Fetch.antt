-- ===== src/Update/Fetch.antt =====
-- The requests of update.go: `do`, `head` and `fetch`.
pub mod Requests
pub mod Body
pub mod Outcome
use winsvr.Base.{
  ℕ, ◌^◌, ◌-◌, Bool, true, false, ◌||◌, Option, none, some, List, [], ◌∷◌, ◌==◌, if◌then◌else◌,
}
use winsvr.Base.Int.{ℤ, pos, ltb_ℤ, add_int64, max_int64}
use winsvr.Base.Bytes.{Bytes, text, bytes_eq}
use winsvr.Go.Error.{Error, Arg, errorf, wrap, word, bytes, number, Result, ok, err}
use winsvr.Go.World.{Env, World, FilePath, Method, Response}
use winsvr.Go.Exec.{Exec, ◌>>=◌, ◌>>◌, pure, fail, attempt}
use winsvr.Go.Os.{send, os_create_temp, copy_limited, close_file, os_remove}
use winsvr.Update.Config.{Updater, PayloadInfo, max_bytes, temp_prefix}
use winsvr.Update.Checksum.{file_crc64}

abbrev pub method_name : Method → Arg
method_name Method.head = word "HEAD"
method_name Method.get = word "GET"

unfoldable pub no_etag : Method → Bytes → Error
no_etag method url =
    errorf
      "update: %s %s: no ETag header, so the payload cannot be identified; configure the server to send one"
      (method_name method ∷ bytes url ∷ [])

-- `readLimit`: one byte past the limit, unless that would wrap.
unfoldable pub read_limit : ℤ → ℤ
read_limit limit = if ltb_ℤ limit (pos max_int64) then add_int64 limit (pos 1) else limit

module _ (env : Env) (u : Updater) where
  unfoldable pub accept_status : Method → Bytes → Response → Exec Response
  accept_status method url resp =
      if resp.status == 200
      then pure resp
      else fail (
          errorf "update: %s %s: %s"
            (method_name method ∷ bytes url ∷ number (pos resp.status) ∷ []))

  -- `do`. A URL that http.NewRequest refuses is an error of `send`.
  unfoldable pub do_request : Method → Bytes → Exec Response
  do_request method url = do resp ← send env method url; accept_status method url resp

  unfoldable pub require_etag : Method → Response → Exec (Unit {0})
  require_etag method resp =
      if bytes_eq resp.etag (text "") then fail (no_etag method u.url) else pure tt

  unfoldable pub head : Exec PayloadInfo
  head = do
    resp ← do_request Method.head u.url
    require_etag Method.head resp
    pure (record { etag = resp.etag; crc64 = 0 })

  -- A declared length over the limit.
  unfoldable pub check_declared : Response → Exec (Unit {0})
  check_declared resp =
      if ltb_ℤ (max_bytes u) resp.content_length
      then fail (
          errorf "update: %s declares %d bytes, over the %d byte limit"
            (bytes u.url ∷ number resp.content_length ∷ number (max_bytes u) ∷ []))
      else pure tt

  -- The error after the copy: of the copy, else of its size, else of Close.
  unfoldable pub copy_error : ℕ → Option Error → Option Error → Option Error
  copy_error n (some e) closing = some e
  copy_error n none closing =
      if ltb_ℤ (max_bytes u) (pos n)
      then some (
          errorf "update: %s is larger than the %d byte limit"
            (bytes u.url ∷ number (max_bytes u) ∷ []))
      else closing

  -- `err != nil`, then `n == 0`.
  unfoldable pub refuse_copy : ℕ → Option Error → Option Error
  refuse_copy n (some e) = some e
  refuse_copy n none =
      if n == 0
      then some
          (errorf "update: %s returned an empty body; refusing to install it" (bytes u.url ∷ []))
      else none

  -- What stands in the way of the bytes just read, if anything does.
  unfoldable pub save_body : FilePath → Response → World → Option Error × World
  save_body tmp resp w =
      let ((n, stop), w1) = copy_limited env tmp resp (read_limit (max_bytes u)) w in
      let (closing, w2) = close_file env w1 in (refuse_copy n (copy_error n stop closing), w2)

  -- The closure `fail`: the temporary file goes, whatever os.Remove says.
  unfoldable pub discard : FilePath → World → World
  discard tmp w = (os_remove env tmp w).1

  -- The checksum of the temporary file, or its error.
  unfoldable pub describe : FilePath → Response → Result ℕ → Exec (FilePath × PayloadInfo)
  describe tmp resp (ok sum) w = (ok (tmp, record { etag = resp.etag; crc64 = sum }), w)
  describe tmp resp (err e) w = (err (wrap "update: checksum the download: %w" [] e), discard tmp w)

  unfoldable pub finish_copy : FilePath → Response → Option Error → Exec (FilePath × PayloadInfo)
  finish_copy tmp resp (some e) w = (err e, discard tmp w)
  finish_copy tmp resp none w = let (sum, w') = file_crc64 env tmp w in describe tmp resp sum w'

  unfoldable pub fill_temp : Response → FilePath → Exec (FilePath × PayloadInfo)
  fill_temp resp tmp w = let (stop, w') = save_body tmp resp w in finish_copy tmp resp stop w'

  -- Everything before the temporary file: a response that may be read.
  unfoldable pub open_body : Exec Response
  open_body = do
    resp ← do_request Method.get u.url
    require_etag Method.get resp
    check_declared resp
    pure resp

  unfoldable pub fetch : Exec (FilePath × PayloadInfo)
  fetch = do
    resp ← open_body
    tmp ← os_create_temp env u.path.dir (temp_prefix u)
    fill_temp resp tmp
