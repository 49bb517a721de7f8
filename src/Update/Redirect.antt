-- ===== src/Update/Redirect.antt =====
-- refuseTLSDowngrade of update.go, and the redirect loop of http.Client that calls it.
pub mod Policy
use winsvr.Base.{
  ℕ, Bool, not, ◌&&◌, Option, none, some, List, [], ◌∷◌, ◌++◌, leb, if◌then◌else◌, length,
}
use winsvr.Base.Bytes.{Bytes, text, bytes_eq}
use winsvr.Go.Error.{Error, errorf, bytes, Result, ok, err}

-- The part of a request that the policy reads: the scheme of its URL.
pub record Request : Type 0 where
  pub scheme : Bytes

abbrev pub https : Bytes
https = text "https"

abbrev pub is_https : Request → Bool
is_https r = bytes_eq r.scheme https

-- via[0].URL.Scheme == "https", where there is a via[0].
unfoldable pub started_on_https : List Request → Bool
started_on_https [] = Bool.false
started_on_https (first ∷ via) = is_https first

unfoldable pub refuse_tls_downgrade : Request → List Request → Option Error
refuse_tls_downgrade req via =
    if leb 10 (length via)
    then some (errorf "stopped after 10 redirects" [])
    else if started_on_https via && not (is_https req)
    then some (errorf "update: refusing redirect from https to %s" (bytes req.scheme ∷ []))
    else none

-- http.Client.Do: `via` holds the requests made, oldest first, `req` is the next one, and `hops` are
-- the redirects that the servers answer with. Every request but the first passes the policy. The
-- result is the requests made when no redirect is left.
unfoldable pub follow : List Request → List Request → Result (List Request)
follow via [] = ok via
follow via (req ∷ hops) = elim (refuse_tls_downgrade req via) [
  | some e ↦ err e
  | none ↦ follow (via ++ (req ∷ [])) hops
]
