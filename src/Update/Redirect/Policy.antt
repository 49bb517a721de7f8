-- ===== src/Update/Redirect/Policy.antt =====
-- What the redirect policy of update.go lets through.
use winsvr.Base.{
  ◌≤◌, ◌<◌, ◌≡◌, subst, inl, inr, true, none, List, [], ◌∷◌, ◌++◌, arith, Option-cases, length,
  length-append, All, All-append,
}
use winsvr.Go.Error.{ok}
use winsvr.Update.Redirect.{Request, is_https, started_on_https, refuse_tls_downgrade, follow}

abbrev pub IsHttps : Request → Type 0
IsHttps r = is_https r ≡ true

started : (via : List Request) → started_on_https via ≡ true → 0 < length via
unfolding started_on_https
started [] h = absurd (cc)
started (r ∷ via) h = omega arith

started-append :
    (via : List Request) (r : Request)
    → started_on_https via ≡ true
    → started_on_https (via ++ (r ∷ [])) ≡ true
unfolding started_on_https
started-append [] r h = absurd (cc)
started-append (x ∷ via) r h = h

allowed :
    (req : Request) (via : List Request)
    → refuse_tls_downgrade req via ≡ none
    → (length via < 10) × (started_on_https via ≡ true → is_https req ≡ true)
unfolding refuse_tls_downgrade
allowed req via h = (ground arith, λ s. ground arith)

follow-All-IsHttps :
    (via hops done : List Request)
    → started_on_https via ≡ true
    → length via ≤ 10
    → All IsHttps via
    → follow via hops ≡ ok done
    → All IsHttps done × (length done ≤ 10)
unfolding follow
follow-All-IsHttps via [] done s short all h =
    let same : via ≡ done = ground arith in
    subst (λ d. All IsHttps d × (length d ≤ 10)) same (all, short)
follow-All-IsHttps via (req ∷ hops) done s short all h =
    elim (Option-cases (refuse_tls_downgrade req via)) [
      | inr (e, refused) ↦ absurd (ground (arith, refused))
      | inl fine ↦
          let (room, secure) = allowed req via fine in
          follow-All-IsHttps (via ++ (req ∷ [])) hops done (started-append via req s)
            (omega (arith, length-append via (req ∷ [])))
            (All-append IsHttps via (req ∷ []) all (secure s, tt)) (ground (arith, fine))
    ]

-- A chain of redirects that begins with an https request and is followed to its end makes https
-- requests only, at most ten.
pub follow-IsHttps :
    (first : Request) (hops done : List Request)
    → is_https first ≡ true
    → follow (first ∷ []) hops ≡ ok done
    → All IsHttps done × (length done ≤ 10)
unfolding started_on_https
follow-IsHttps first hops done h = follow-All-IsHttps (first ∷ []) hops done h (omega arith) (h, tt)
