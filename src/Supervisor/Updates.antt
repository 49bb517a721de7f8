-- ===== src/Supervisor/Updates.antt =====
-- updateBeforeLaunch of supervisor.go as steps: it keeps what every step of an update keeps, and it
-- comes back without an error only from a check that succeeded.
use Prim.Native.String.{String}
use winsvr.Base.{
  ℕ, zero, suc, ◌+◌, ◌≤◌, ◌≡◌, Bool, false, none, some, List, [], ◌∷◌, arith, Option-cases,
  Bool-cases, inl, inr,
}
use winsvr.Base.Int.{ℤ, pos}
use winsvr.Go.Error.{Error, bytes, number, ok}
use winsvr.Go.World.{Env, World, FilePath, Level, Value, debug, warn, arg, failure, next, slept}
use winsvr.Go.Effects.{Result-cases}
use winsvr.Go.Os.{ctx_err, wait_timer, emit}
use winsvr.Go.Steps.{IsKept, along-ctx_err, along-logs}
use winsvr.Backoff.{sleep, grow}
use winsvr.Update.Config.{Codec}
use winsvr.Update.Check.{ensure_latest}
use winsvr.Update.Steps.Checks.{along-sleep, Along-ensure_latest}
use winsvr.Supervisor.Config.{Supervisor, say}
use winsvr.Supervisor.Run.{returned, updater, max_wait, update_loop}

-- A context that is done stays done.
abbrev pub IsLasting : Env → Type 0
IsLasting env =
    (t t' : ℕ)
    → t ≤ t'
    → (e : Error) → env.ctx_err t ≡ some e
    → (e' : Error) × (env.ctx_err t' ≡ some e')

-- A timer that did not fire has met a context that is done.
pub lost_timer :
    (env : Env) (d : ℤ) (v : World)
    → (sleep env d v).0 ≡ false
    → (x : Error) × (env.ctx_err (sleep env d v).1.tick ≡ some x)
unfolding sleep wait_timer
lost_timer env d v lost = elim (Option-cases (env.ctx_err (next (emit (slept d) v)).tick)) [
  | inl live ↦ absurd (ground (arith, live))
  | inr (x, over) ↦ (x, ground (arith, over))
]

module _ (env : Env) (codec : Codec) (s : Supervisor) (bin : FilePath) where
  abbrev pub said_checking : ℕ → World → World
  said_checking attempt w =
      say s debug "checking for payload update"
        (("attempt", arg (number (pos attempt))) ∷ ("url", arg (bytes s.update_url)) ∷ []) w

  abbrev pub said_failed : ℕ → Error → ℤ → World → World
  said_failed attempt e wait w =
      say s warn "update check failed; will retry"
        (("attempt", arg (number (pos attempt)))
          ∷ ("err", failure e)
          ∷ ("retryIn", arg (number wait))
          ∷ [])
        w

  module _ (R : World → World → Type 0) (k : IsKept R) where
    pub along-say :
        (level : Level) (message : String) (attrs : List (String × Value)) (w : World)
        → R w (say s level message attrs w)
    unfolding say
    along-say level message attrs w = along-logs R k s.has_logger level message attrs w

    pub along-update_loop :
        (fuel attempt : ℕ) (wait : ℤ) (w : World)
        → R w (update_loop env codec s bin fuel attempt wait w).1
    unfolding update_loop
    along-update_loop zero attempt wait w = k.same w
    along-update_loop (suc fuel) attempt wait w =
        let w0 = (ctx_err env w).1 in
        let w0' = (ctx_err env w0).1 in
        let said = said_checking attempt w0 in
        let checked = ensure_latest env codec (updater env codec s bin) said in
        let w2 = (ctx_err env checked.1).1 in
        let first = along-ctx_err R k env w in
        let asked =
          k.both w said checked.1 (k.both w w0 said first (along-say debug _ _ w0))
            (Along-ensure_latest R k env codec (updater env codec s bin) said) in
        let again = k.both w checked.1 w2 asked (along-ctx_err R k env checked.1) in
        elim (Option-cases (ctx_err env w).0) [
          | inr (x, over) ↦ ground (arith, over, k.both w w0 w0' first (along-ctx_err R k env w0))
          | inl live ↦ elim (Result-cases checked.0) [
            | inr (b, good) ↦ ground (arith, live, good, asked)
            | inl (e, bad) ↦ elim (Option-cases (ctx_err env checked.1).0) [
              | inr (x, over) ↦ ground (arith, live, bad, over, again)
              | inl on ↦
                  let told = said_failed attempt e wait w2 in
                  let w3 = (sleep env wait told).1 in
                  let slept =
                    k.both w told w3 (k.both w w2 told again (along-say warn _ _ w2))
                      (along-sleep R k env wait told) in
                  elim (Bool-cases (sleep env wait told).0) [
                    | inl fired ↦ ground (
                      arith,
                      live,
                      bad,
                      on,
                      fired,
                      k.both w w3
                          (update_loop env codec s bin fuel (attempt + 1)
                            (grow wait (max_wait env codec s bin)) w3).1
                          slept
                          (along-update_loop fuel (attempt + 1)
                            (grow wait (max_wait env codec s bin)) w3),
                    )
                    | inr lost ↦ ground (
                      arith,
                      live,
                      bad,
                      on,
                      lost,
                      k.both w w3 (ctx_err env w3).1 slept (along-ctx_err R k env w3),
                    )
                  ]
            ]
          ]
        ]

  -- With a context that stays done, the loop comes back without an error only from a check that has
  -- just succeeded.
  pub update_loop_checked :
      IsLasting env
      → (fuel attempt : ℕ) (wait : ℤ) (w w' : World)
      → update_loop env codec s bin fuel attempt wait w ≡ (returned none, w')
      → (v : World) × (b : Bool) × (ensure_latest env codec (updater env codec s bin) v
          ≡ (ok b, w'))
  unfolding update_loop ctx_err next
  update_loop_checked lasting zero attempt wait w w' h = absurd (cc)
  update_loop_checked lasting (suc fuel) attempt wait w w' h =
      let w0 = (ctx_err env w).1 in
      let said = said_checking attempt w0 in
      let checked = ensure_latest env codec (updater env codec s bin) said in
      elim (Option-cases (ctx_err env w).0) [
        | inr (x, over) ↦
            let (x', still) = lasting w.tick (w.tick + 1) (omega arith) x over in
            absurd (ground (arith, over, still))
        | inl live ↦ elim (Result-cases checked.0) [
          | inr (b, good) ↦ (said, b, ground (arith, live, good))
          | inl (e, bad) ↦ elim (Option-cases (ctx_err env checked.1).0) [
            | inr (x, over) ↦ absurd (ground (arith, live, bad, over))
            | inl on ↦
                let told = said_failed attempt e wait (ctx_err env checked.1).1 in
                elim (Bool-cases (sleep env wait told).0) [
                  | inl fired ↦
                      update_loop_checked lasting fuel (attempt + 1)
                        (grow wait (max_wait env codec s bin)) (sleep env wait told).1 w'
                        (ground (arith, live, bad, on, fired))
                  | inr lost ↦
                      let (x, late) = lost_timer env wait told lost in
                      absurd (ground (arith, live, bad, on, lost, late))
                ]
          ]
        ]
      ]
