-- ===== src/Manager/Control/Requests.antt =====
-- What Start, Stop and Status of manager_windows.go tell, and that they close what they open.
use winsvr.Base.{ℕ, ◌+◌, ◌≡◌, ◌↔◌, none, arith, List, Bool, true, false, refl}
use winsvr.Base.Bytes.{Bytes}
use winsvr.Go.Error.{Result, ok, err}
use winsvr.Manager.Calls.{
  Call, connect, open_service, query_status, Scm, Transcript, ask, is_open, is_close, is_connect,
  is_disconnect, is_raw_open, is_raw_close, made, succeeded, start_service, control_stop,
}
use winsvr.Manager.Control.{
  make_request, opened_request, control, start, stop, query, query_opened, query_named, status,
}

-- A request that opens and closes nothing.
unfoldable is_quiet : Call → Bool
is_quiet control_stop = true
is_quiet (start_service args) = true
is_quiet _ = false

module _ (scm : Scm) where
  -- As many handles closed as opened.
  abbrev pub IsBalanced : Transcript → Transcript → Type 0
  IsBalanced s s' =
      (made is_close s'.calls + succeeded is_open s.calls
        ≡ made is_close s.calls + succeeded is_open s'.calls)
      × (made is_disconnect s'.calls + succeeded is_connect s.calls
          ≡ made is_disconnect s.calls + succeeded is_connect s'.calls)
      × (made is_raw_close s'.calls + succeeded is_raw_open s.calls
          ≡ made is_raw_close s.calls + succeeded is_raw_open s'.calls)

  -- Connecting, opening the service, and the request, one after another, are all granted.
  abbrev pub IsGranted : Bytes → Call → ℕ → Type 0
  IsGranted name fn t =
      (scm.answer t connect ≡ none)
      × (scm.answer (t + 1) (open_service name) ≡ none)
      × (scm.answer (t + 1 + 1) fn ≡ none)

  control-IsBalanced :
      (name : Bytes) (fn : Call) (s : Transcript)
      → is_quiet fn ≡ true
      → IsBalanced s (control scm name fn s).1
  unfolding control opened_request make_request ask is_quiet
  control-IsBalanced name fn s quiet =
      (ground (arith, quiet), ground (arith, quiet), ground (arith, quiet))

  status-IsBalanced : (name : Bytes) (s : Transcript) → IsBalanced s (status scm name s).1
  unfolding status query_named query_opened query ask
  status-IsBalanced name s = (ground arith, ground arith, ground arith)

  control-none :
      (name : Bytes) (fn : Call) (s : Transcript)
      → ((control scm name fn s).0 ≡ none) ↔ IsGranted name fn s.tick
  unfolding control opened_request make_request ask
  control-none name fn s = (
    λ h. (ground (arith, h), ground (arith, h), ground (arith, h)),
    λ g. ground (arith, g.0, g.1, g.2),
  )

  -- A state is that of a query which was granted.
  abbrev pub IsTold : ℕ → Result ℕ → Type 0
  IsTold t (ok state) = (scm.answer t query_status ≡ none) × (state ≡ scm.state t)
  IsTold t (err e) = Unit

  status-IsTold : (name : Bytes) (s : Transcript) → IsTold (s.tick + 1 + 1) (status scm name s).0
  unfolding status query_named query_opened query ask
  status-IsTold name s = go (status scm name s).0 refl
    where
      go : (r : Result ℕ) → (status scm name s).0 ≡ r → IsTold (s.tick + 1 + 1) r
      go (ok state) h = (ground (arith, h), ground (arith, h))
      go (err e) h = tt

  -- Start and Stop return no error exactly if connecting, opening the service and the request itself
  -- are all granted. A state that Status returns is the one of a query that was granted. All three
  -- close every handle that they open, on every path.
  pub requests_exact :
      (name : Bytes) (args : List Bytes) (s : Transcript)
      → (((start scm name args s).0 ≡ none) ↔ IsGranted name (start_service args) s.tick)
        × (((stop scm name s).0 ≡ none) ↔ IsGranted name control_stop s.tick)
        × IsTold (s.tick + 1 + 1) (status scm name s).0
        × IsBalanced s (start scm name args s).1
        × IsBalanced s (stop scm name s).1
        × IsBalanced s (status scm name s).1
  unfolding is_quiet
  requests_exact name args s = (
    control-none name (start_service args) s,
    control-none name control_stop s,
    status-IsTold name s,
    control-IsBalanced name (start_service args) s refl,
    control-IsBalanced name control_stop s refl,
    status-IsBalanced name s,
  )
