-- ===== src/Update/Fetch/Requests.antt =====
-- What a request of update.go yields.
use winsvr.Base.{◌≡◌, ◌≢◌, ap, arith, [], inl, inr}
use winsvr.Base.Bytes.{Bytes, bytes_eq, bytes_eq_refl}
use winsvr.Go.Error.{ok}
use winsvr.Go.World.{Env, World, Method, Response, next}
use winsvr.Go.Exec.{◌>>=◌}
use winsvr.Go.Os.{send, emit}
use winsvr.Go.Effects.{Result-cases}
use winsvr.Update.Config.{Updater, PayloadInfo}
use winsvr.Update.Fetch.{do_request, accept_status, require_etag, head, check_declared, open_body}

module _ (env : Env) (u : Updater) where
  pub files-do_request :
      (m : Method) (url : Bytes) (w : World) → (do_request env u m url w).1.files ≡ w.files
  unfolding do_request accept_status send emit next ◌>>=◌
  files-do_request m url w = ground arith

  pub do_request_ok :
      (m : Method) (url : Bytes) (w : World) (resp : Response)
      → (do_request env u m url w).0 ≡ ok resp
      → (env.http w.tick m url ≡ ok resp) × (resp.status ≡ 200)
  unfolding do_request accept_status send emit next ◌>>=◌
  do_request_ok m url w resp h = ground arith

  pub files-open_body : (w : World) → (open_body env u w).1.files ≡ w.files
  unfolding open_body do_request accept_status require_etag check_declared send emit next ◌>>=◌
  files-open_body w = ground arith

  -- A response to a GET whose body is read: status 200, and an ETag.
  pub open_body_ok :
      (w : World) (resp : Response)
      → (open_body env u w).0 ≡ ok resp
      → (env.http w.tick Method.get u.url ≡ ok resp) × (resp.status ≡ 200) × (resp.etag ≢ [])
  unfolding open_body do_request accept_status require_etag check_declared send emit next ◌>>=◌
  open_body_ok w resp h =
      (ground arith, ground arith, λ e. ground (arith, bytes_eq_refl [], ap (λ s. bytes_eq s []) e))

  pub files-head : (w : World) → (head env u w).1.files ≡ w.files
  unfolding head do_request accept_status require_etag send emit next ◌>>=◌
  files-head w = ground arith

  -- What a HEAD tells: the ETag of a response with status 200.
  pub head_ok :
      (w : World) (rem : PayloadInfo)
      → (head env u w).0 ≡ ok rem
      → (resp : Response) × (env.http w.tick Method.head u.url ≡ ok resp)
        × (resp.status ≡ 200)
        × (resp.etag ≢ [])
        × (rem.etag ≡ resp.etag)
  unfolding head do_request accept_status require_etag send emit next ◌>>=◌
  head_ok w rem h = elim (Result-cases (env.http w.tick Method.head u.url)) [
    | inl (e, bad) ↦ absurd (ground (arith, bad))
    | inr (resp, got) ↦ (
      resp,
      got,
      ground (arith, got),
      λ e. ground (arith, got, bytes_eq_refl [], ap (λ s. bytes_eq s []) e),
      ground (arith, got),
    )
  ]
