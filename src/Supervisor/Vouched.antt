-- ===== src/Supervisor/Vouched.antt =====
-- What Run of supervisor.go launches when it has a URL to update from.
use winsvr.Base.{
  ℕ, ◌*◌, ◌<◌, ◌≡◌, ◌≢◌, refl, ◌⊎◌, inl, inr, Bool, true, false, not, none, some, [], ◌∷◌, arith,
  length, Option-cases, Bool-cases,
}
use winsvr.Base.Int.{pos}
use winsvr.Base.Bytes.{text, bytes_eq, bytes_eq_iff}
use winsvr.Go.Error.{bytes, file_path, flag, Result, ok}
use winsvr.Go.World.{Env, World, FilePath, Node, Method, Response, info, error, arg, failure}
use winsvr.Go.Files.{FileMap, find}
use winsvr.Go.Effects.{Result-cases}
use winsvr.Go.Os.{ctx_err}
use winsvr.Go.Steps.{along-ctx_err}
use winsvr.Go.Steps.Kinds.{launches, HasSameLaunches, launches-IsKept}
use winsvr.Backoff.{second}
use winsvr.Update.Config.{Codec, PayloadInfo, state_path}
use winsvr.Update.Checksum.{crc64}
use winsvr.Update.Fetch.Outcome.{IsSane, Delivered}
use winsvr.Update.Check.{ensure_latest}
use winsvr.Update.Check.Promises.{ensure_latest_updated, ensure_latest_current}
use winsvr.Supervisor.Config.{Supervisor, Session, say, bin_path}
use winsvr.Supervisor.Run.{
  Outcome, running, returned, updater, update_loop, update_before_launch, launch_and_supervise,
  after_update, run_at, run,
}
use winsvr.Supervisor.Updates.{IsLasting, along-say, along-update_loop, update_loop_checked}

module _ (env : Env) (codec : Codec) (s : Supervisor) (bin : FilePath) where
  -- The payload is there and not empty, and the server has vouched for it: it is the body of an answer
  -- to a GET, or has the checksum that is recorded for the ETag of an answer to a HEAD.
  abbrev pub IsVouched : FileMap → Type 0
  IsVouched fs =
      let u = updater env codec s bin in
      (n : Node) × (find bin fs ≡ some n)
      × (0 < length n.content)
      × (((got : PayloadInfo) × Delivered env u got n.content)
          ⊎ ((m : Node) × (t : ℕ) × (resp : Response) × (find (state_path u) fs ≡ some m)
              × (env.http t Method.head u.url ≡ ok resp)
              × (resp.status ≡ 200)
              × ((codec.decode m.content).etag ≡ resp.etag)
              × ((codec.decode m.content).crc64 ≡ crc64 n.content)))

  checked-IsVouched :
      IsSane env (updater env codec s bin)
      → (b : Bool) (v w : World) → ensure_latest env codec (updater env codec s bin) v ≡ (ok b, w)
      → IsVouched w.files
  checked-IsVouched sane true v w h =
      let (got, n, there, delivered) =
        ensure_latest_updated env codec (updater env codec s bin) sane v w h in
      let (_, _, _, _, _, _, _, _, some_bytes, _) = delivered in
      (n, there, some_bytes, inl (got, delivered))
  checked-IsVouched sane false v w h =
      let (
        payload,
        state,
        (n, m, t, resp, there, recorded, answer, status, _, etags, sums, some_bytes),
      ) =
        ensure_latest_current env codec (updater env codec s bin) v w h in
      (
        n,
        ground (arith, payload, there),
        some_bytes,
        inr (m, t, resp, ground (arith, state, recorded), answer, status, etags, sums),
      )

module _ (env : Env) (codec : Codec) (session : Session) (s : Supervisor) where
  -- Nothing was launched, or Run went on from a state with a payload that is vouched for, and nothing
  -- was launched before that state.
  abbrev pub LaunchesVouched : ℕ → World → Outcome × World → Type 0
  LaunchesVouched fuel w end =
      (launches end.1.events ≡ launches w.events)
      ⊎ ((bin : FilePath) × (v : World) × (end ≡ launch_and_supervise env session s bin fuel v)
          × (launches v.events ≡ launches w.events)
          × IsVouched env codec s bin v.files)

  module _ (lasting : IsLasting env) (fuel : ℕ) where
    after_update-LaunchesVouched :
        (bin : FilePath) (o : Outcome) (w w' : World)
        → IsSane env (updater env codec s bin)
        → launches w'.events ≡ launches w.events
        → (o ≡ returned none
            → (v : World) × (b : Bool) × (ensure_latest env codec (updater env codec s bin) v
                ≡ (ok b, w')))
        → LaunchesVouched fuel w (after_update env codec session s fuel bin o w')
    unfolding after_update
    after_update-LaunchesVouched bin running w w' sane quiet checked = inl quiet
    after_update-LaunchesVouched bin (returned none) w w' sane quiet checked =
        let (v, b, good) = checked refl in
        inr (bin, w', refl, quiet, checked-IsVouched env codec s bin sane b v w' good)
    after_update-LaunchesVouched bin (returned (some e)) w w' sane quiet checked =
        let w1 = (ctx_err env w').1 in
        let asked = along-ctx_err HasSameLaunches launches-IsKept env w' in
        elim (Option-cases (ctx_err env w').0) [
          | inl live ↦ inl (
              ground (
                arith,
                live,
                quiet,
                asked,
                along-say env codec s bin HasSameLaunches launches-IsKept error
                    "update check gave up; service will exit" (("err", failure e) ∷ []) w1,
              ))
          | inr (x, over) ↦ inl (
              ground (
                arith,
                over,
                quiet,
                asked,
                along-say env codec s bin HasSameLaunches launches-IsKept info
                    "service stopping before first launch" (("reason", failure e) ∷ []) w1,
              ))
        ]

    run_at-LaunchesVouched :
        (bin : FilePath) (w : World)
        → IsSane env (updater env codec s bin)
        → s.update_url ≢ text ""
        → LaunchesVouched fuel w (run_at env codec session s fuel bin w)
    unfolding run_at update_before_launch
    run_at-LaunchesVouched bin w sane wanted =
        let said =
          say s info "service starting"
            (("payload", arg (file_path bin.dir bin.base))
              ∷ ("updateURL", arg (bytes s.update_url))
              ∷ ("elevated", arg (flag s.launch_elevated))
              ∷ ("autoElevate", arg (flag (not s.disable_auto_elevate)))
              ∷ ("hidden", arg (flag s.hidden))
              ∷ [])
            w in
        let ended = update_loop env codec s bin fuel 1 (pos (2 * second)) said in
        elim (Bool-cases (bytes_eq s.update_url (text ""))) [
          | inl same ↦ absurd (wanted ((bytes_eq_iff s.update_url (text "")).0 same))
          | inr updates ↦ rw updates (
              after_update-LaunchesVouched bin ended.0 w ended.1 sane
                (launches-IsKept.both w said ended.1
                  (along-say env codec s bin HasSameLaunches launches-IsKept info "service starting"
                    _ w)
                  (along-update_loop env codec s bin HasSameLaunches launches-IsKept fuel 1
                    (pos (2 * second)) said))
                (λ e.
                  update_loop_checked env codec s bin lasting fuel 1 (pos (2 * second)) said ended.1
                    (ground (arith, e))))
        ]

    -- With an UpdateURL and a context that stays done, and where no body has math.MaxInt64 bytes, Run
    -- launches no payload before a check for an update has succeeded: either it launched nothing, or it
    -- went on from a state before which it launched nothing, and in which the payload is there, is not
    -- empty, and is the body that the server answered to a GET with status 200, or has the checksum
    -- recorded for the ETag that the server answered to a HEAD.
    pub run_launches_only_vouched :
        ((bin : FilePath) → IsSane env (updater env codec s bin))
        → s.update_url ≢ text ""
        → (executable : Result FilePath) (w : World)
        → LaunchesVouched fuel w (run env codec session s fuel executable w)
    unfolding run
    run_launches_only_vouched sane wanted executable w =
        let silent =
          along-say env codec s record { dir = []; base = [] } HasSameLaunches launches-IsKept in
        elim (Bool-cases (bytes_eq s.bin (text ""))) [
          | inl missing ↦ rw missing (inl (silent error "cannot start service" _ w))
          | inr named ↦ elim (Result-cases (bin_path s executable)) [
            | inl (e, bad) ↦ rw (named, bad) (inl (silent error "cannot resolve payload path" _ w))
            | inr (bin, found) ↦ rw (named, found) (run_at-LaunchesVouched bin w (sane bin) wanted)
          ]
        ]
