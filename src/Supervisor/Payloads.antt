-- ===== src/Supervisor/Payloads.antt =====
-- The payload's file through updateBeforeLaunch of supervisor.go, however often it checks.
use winsvr.Base.{
  ℕ, zero, suc, subst, sym, ◌+◌, ◌≡◌, refl, ◌∙◌, ◌⊎◌, inl, inr, true, false, Bool, none, some,
  arith, Option-cases, Bool-cases,
}
use winsvr.Base.Int.{ℤ}
use winsvr.Go.Error.{Error, Result, ok, err}
use winsvr.Go.World.{Env, World, FilePath, Node, next}
use winsvr.Go.Files.{FileMap, find}
use winsvr.Go.Effects.{Result-cases, files-wait_timer}
use winsvr.Go.Os.{ctx_err, log_record}
use winsvr.Backoff.{sleep, grow}
use winsvr.Update.Config.{Codec, PayloadInfo}
use winsvr.Update.Fetch.Outcome.{IsSane, Delivered}
use winsvr.Update.Check.{ensure_latest}
use winsvr.Update.Check.Promises.{
  ensure_latest_updated, ensure_latest_failed, ensure_latest_current,
}
use winsvr.Supervisor.Config.{Supervisor, say}
use winsvr.Supervisor.Run.{updater, max_wait, update_loop}
use winsvr.Supervisor.Updates.{said_checking, said_failed}

module _ (env : Env) (codec : Codec) (s : Supervisor) (bin : FilePath) where
  -- The payload is what it was, or is not there, or is a body that the server has delivered.
  abbrev pub IsWhole : FileMap → FileMap → Type 0
  IsWhole fs fs' =
      (find bin fs' ≡ find bin fs)
      ⊎ ((find bin fs' ≡ none)
          ⊎ ((got : PayloadInfo) × (n : Node) × (find bin fs' ≡ some n)
              × Delivered env (updater env codec s bin) got n.content))

  IsWhole-trans : (a b c : FileMap) → IsWhole a b → IsWhole b c → IsWhole a c
  IsWhole-trans a b c first (inr then_) = inr then_
  IsWhole-trans a b c (inl first) (inl same) = inl (same ∙ first)
  IsWhole-trans a b c (inr (inl gone)) (inl same) = inr (inl (same ∙ gone))
  IsWhole-trans a b c (inr (inr (got, n, there, whole))) (inl same) =
      inr (inr (got, n, same ∙ there, whole))

  moved : (a b c : FileMap) → b ≡ c → IsWhole a c → IsWhole a b
  moved a b c same whole = subst (λ fs. IsWhole a fs) (sym same) whole

  checked-IsWhole :
      IsSane env (updater env codec s bin)
      → (w : World) → IsWhole w.files (ensure_latest env codec (updater env codec s bin) w).1.files
  checked-IsWhole sane w = go (ensure_latest env codec (updater env codec s bin) w) refl
    where
      go :
          (end : Result Bool × World)
          → ensure_latest env codec (updater env codec s bin) w ≡ end
          → IsWhole w.files end.1.files
      go (ok true, w') h =
          let (got, n, there, whole) =
            ensure_latest_updated env codec (updater env codec s bin) sane w w' h in
          inr (inr (got, n, there, whole))
      go (ok false, w') h = inl (ensure_latest_current env codec (updater env codec s bin) w w' h).0
      go (err e, w') h =
          elim (ensure_latest_failed env codec (updater env codec s bin) sane w w' e h).0 [
            | inl same ↦ inl same
            | inr gone ↦ inr (inl gone)
          ]

  files-said_checking :
      (attempt : ℕ) (w : World) → (said_checking env codec s bin attempt w).files ≡ w.files
  unfolding say log_record
  files-said_checking attempt w = ground arith

  files-said_failed :
      (attempt : ℕ) (e : Error) (wait : ℤ) (w : World)
      → (said_failed env codec s bin attempt e wait w).files ≡ w.files
  unfolding say log_record
  files-said_failed attempt e wait w = ground arith

  files-sleep : (d : ℤ) (w : World) → (sleep env d w).1.files ≡ w.files
  unfolding sleep
  files-sleep d w = files-wait_timer env d w

  -- Where no body has math.MaxInt64 bytes, whenever updateBeforeLaunch stops, after any number of checks
  -- and however they went, there stands at the payload's path what stood there before, or nothing, or
  -- the whole body of one answer of the server to a GET, with status 200, an ETag and no error, not
  -- empty and not over the limit.
  pub update_loop-IsWhole :
      IsSane env (updater env codec s bin)
      → (fuel attempt : ℕ) (wait : ℤ) (w : World)
      → IsWhole w.files (update_loop env codec s bin fuel attempt wait w).1.files
  unfolding update_loop ctx_err next
  update_loop-IsWhole sane zero attempt wait w = inl refl
  update_loop-IsWhole sane (suc fuel) attempt wait w =
      let said = said_checking env codec s bin attempt (ctx_err env w).1 in
      let checked = ensure_latest env codec (updater env codec s bin) said in
      let whole : IsWhole w.files checked.1.files =
        subst (λ fs. IsWhole fs checked.1.files) (files-said_checking attempt (ctx_err env w).1)
          (checked-IsWhole sane said) in
      let end_files = (update_loop env codec s bin (suc fuel) attempt wait w).1.files in
      elim (Option-cases (ctx_err env w).0) [
        | inr (x, over) ↦ moved w.files end_files w.files (ground (arith, over)) (inl refl)
        | inl live ↦ elim (Result-cases checked.0) [
          | inr (b, good) ↦
              moved w.files end_files checked.1.files (ground (arith, live, good)) whole
          | inl (e, bad) ↦ elim (Option-cases (ctx_err env checked.1).0) [
            | inr (x, over) ↦
                moved w.files end_files checked.1.files (ground (arith, live, bad, over)) whole
            | inl on ↦
                let told = said_failed env codec s bin attempt e wait (ctx_err env checked.1).1 in
                let w3 = (sleep env wait told).1 in
                let same : w3.files ≡ checked.1.files =
                  files-sleep wait told
                  ∙ files-said_failed attempt e wait (ctx_err env checked.1).1 in
                let waited : IsWhole w.files w3.files =
                  moved w.files w3.files checked.1.files same whole in
                elim (Bool-cases (sleep env wait told).0) [
                  | inl fired ↦
                      moved w.files end_files
                        (update_loop env codec s bin fuel (attempt + 1)
                          (grow wait (max_wait env codec s bin)) w3).1.files
                        (ground (arith, live, bad, on, fired))
                        (IsWhole-trans w.files w3.files _ waited (
                          update_loop-IsWhole sane fuel (attempt + 1)
                            (grow wait (max_wait env codec s bin)) w3))
                  | inr lost ↦
                      moved w.files end_files w3.files (ground (arith, live, bad, on, lost)) waited
                ]
          ]
        ]
      ]
