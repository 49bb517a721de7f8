-- ===== src/Manager/Install/Rollback.antt =====
-- Install of manager_windows.go leaves no half-installed service and no open handle.
use winsvr.Base.{◌+◌, suc, ◌≡◌, arith, none, some, Option}
use winsvr.Base.Bytes.{Bytes}
use winsvr.Go.Error.{Error, Result}
use winsvr.Framework.Config.{Config}
use winsvr.Manager.Calls.{
  Scm, Transcript, ask, is_create, is_delete, is_close, is_connect, is_disconnect, made, succeeded,
}
use winsvr.Manager.Install.{
  undo, add_source, add_non_crash, add_recovery, configure, create, install,
}

module _ (scm : Scm) (c : Config) where
  -- Every service that was created was either kept, by a success, or is matched by an attempt to
  -- delete it.
  abbrev pub IsUndone : Transcript → Option Error × Transcript → Type 0
  IsUndone s (none, s') =
      (succeeded is_create s'.calls ≡ succeeded is_create s.calls)
      × (made is_delete s'.calls ≡ made is_delete s.calls)
  IsUndone s (some e, s') =
      (succeeded is_create s'.calls ≡ succeeded is_create s.calls)
      × (made is_delete s'.calls ≡ suc (made is_delete s.calls))

  configure-IsUndone : (s : Transcript) → IsUndone s (configure scm c s)
  unfolding configure add_recovery add_non_crash add_source undo ask
  configure-IsUndone s = ground arith

  -- Handles: as many are closed as were opened.
  abbrev pub IsClosed : Transcript → Option Error × Transcript → Type 0
  IsClosed s (out, s') =
      (made is_close s'.calls + succeeded is_create s.calls
        ≡ made is_close s.calls + succeeded is_create s'.calls)
      × (made is_disconnect s'.calls + succeeded is_connect s.calls
          ≡ made is_disconnect s.calls + succeeded is_connect s'.calls)

  -- Whether Install succeeds or fails, and what it has created and deleted then.
  abbrev pub IsSettled : Transcript → Option Error × Transcript → Type 0
  IsSettled s (none, s') =
      (succeeded is_create s'.calls ≡ suc (succeeded is_create s.calls))
      × (made is_delete s'.calls ≡ made is_delete s.calls)
  IsSettled s (some e, s') =
      succeeded is_create s'.calls + made is_delete s.calls
      ≡ succeeded is_create s.calls + made is_delete s'.calls

  configure-IsClosed : (s : Transcript) → IsClosed s (configure scm c s)
  unfolding configure add_recovery add_non_crash add_source undo ask
  configure-IsClosed s = ground arith

  -- Install that succeeds has created one service and deleted none. Install that fails has tried to
  -- delete a service as often as it has created one, so none is left half-installed, unless that
  -- deletion is refused. Every handle that it opened is closed either way.
  pub install_settles :
      (executable : Result Bytes) (s : Transcript)
      → IsSettled s (install scm c executable s) × IsClosed s (install scm c executable s)
  unfolding install create configure add_recovery add_non_crash add_source undo ask
  install_settles executable s = (ground arith, ground arith)
