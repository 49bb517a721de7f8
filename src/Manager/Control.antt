-- ===== src/Manager/Control.antt =====
-- Status, Start, Stop and control of manager_windows.go.
pub mod Requests
use winsvr.Base.{ℕ, Bool, Option, none, some, List, [], ◌∷◌, if◌then◌else◌}
use winsvr.Base.Bytes.{Bytes}
use winsvr.Go.Error.{Error, Result, ok, err, wrap, sentinel, einval}
use winsvr.Manager.Calls.{
  Call, connect, disconnect, open_service, close_service, control_stop, start_service, open_manager,
  open_query, query_status, close_service_handle, Scm, Transcript, ask,
}
use winsvr.Session.Launch.{utf16}

module _ (scm : Scm) where
  -- `fn` is one request to the open service.
  unfoldable pub make_request : Call → Transcript → Option Error × Transcript
  make_request fn s = let (r, s1) = ask scm fn s in (r, (ask scm close_service s1).1)

  unfoldable pub opened_request : Bytes → Call → Transcript → Option Error × Transcript
  opened_request name fn s =
      let (opened, s1) = ask scm (open_service name) s in
      let done = make_request fn s1 in elim opened [ some e ↦ (some e, s1) | none ↦ done ]

  unfoldable pub control : Bytes → Call → Transcript → Option Error × Transcript
  control name fn s =
      let (connected, s1) = ask scm connect s in
      let (r, s2) = opened_request name fn s1 in
      elim connected [ some e ↦ (some e, s1) | none ↦ (r, (ask scm disconnect s2).1) ]

  abbrev pub start : Bytes → List Bytes → Transcript → Option Error × Transcript
  start name args = control name (start_service args)

  abbrev pub stop : Bytes → Transcript → Option Error × Transcript
  stop name = control name control_stop

  -- The state is the one that the query at this tick answers.
  unfoldable pub query : Transcript → Result ℕ × Transcript
  query s =
      let (r, s1) = ask scm query_status s in
      let answer = elim r as (λ _. Result ℕ) [ some e ↦ err e | none ↦ ok (scm.state s.tick) ] in
      (answer, (ask scm close_service_handle s1).1)

  unfoldable pub query_opened : Bytes → Transcript → Result ℕ × Transcript
  query_opened name s =
      let (opened, s1) = ask scm (open_query name) s in
      let done = query s1 in elim opened [ some e ↦ (err e, s1) | none ↦ done ]

  -- The name is converted before the service is opened.
  unfoldable pub query_named : Bytes → Transcript → Result ℕ × Transcript
  query_named name s = elim (utf16 name) [ some e ↦ (err e, s) | none ↦ query_opened name s ]

  unfoldable pub status : Bytes → Transcript → Result ℕ × Transcript
  status name s =
      let (connected, s1) = ask scm open_manager s in
      let (r, s2) = query_named name s1 in
      elim connected [
        | some e ↦ (err (wrap "connect SCM: %w" [] e), s1)
        | none ↦ (r, (ask scm close_service_handle s2).1)
      ]
