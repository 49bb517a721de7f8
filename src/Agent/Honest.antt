-- ===== src/Agent/Honest.antt =====
-- What it means that the program of example/agent reports an installed or removed service.
use winsvr.Base.{
  ℕ, suc, ◌≡◌, refl, ap, subst, sym, ◌∙◌, Bool, true, false, Option, none, some, [], ◌∷◌, arith,
}
use winsvr.Base.Bytes.{Bytes, text}
use winsvr.Go.Error.{Error, Result}
use winsvr.Go.World.{next}
use winsvr.Manager.Calls.{
  Call, Transcript, ask, made, succeeded, start_service, is_create, is_delete,
}
use winsvr.Manager.Install.{
  install, create, configure, add_recovery, add_non_crash, add_source, undo,
}
use winsvr.Manager.Install.Rollback.{IsSettled, install_settles}
use winsvr.Manager.Control.{start, control, opened_request, make_request}
use winsvr.Manager.Elevate.{elevate}
use winsvr.Agent.Desk.{Host, Desk, Message, agent_config, service_name}
use winsvr.Agent.Program.{
  Ending, unfinished, returned, exited, path_text, and_then, ensure_admin, install_service,
  start_installed, start_error, tell, do_install, install_command, dispatch,
}
use winsvr.Agent.Admin.{manager-report, manager-after_elevate}

abbrev pub is_start : Call → Bool
is_start (start_service args) = true
is_start _ = false

returned_inj : {x y : Option Error} → returned x ≡ returned y → x ≡ y
returned_inj h = ground (arith, h)

-- One service created, one started, and none deleted.
abbrev pub IsInstalled : Transcript → Transcript → Type 0
IsInstalled s s' =
    (succeeded is_create s'.calls ≡ suc (succeeded is_create s.calls))
    × (succeeded is_start s'.calls ≡ suc (succeeded is_start s.calls))
    × (made is_delete s'.calls ≡ made is_delete s.calls)

module _ (host : Host) (fuel : ℕ) where
  and_then-done :
      (x : Ending × Desk) (k : Desk → Ending × Desk) (d' : Desk)
      → and_then host fuel x k ≡ (returned none, d')
      → (x.0 ≡ returned none) × (k x.1 ≡ (returned none, d'))
  unfolding and_then
  and_then-done (returned none, d) k d' h = (refl, h)
  and_then-done (returned (some e), d) k d' h = absurd (cc)
  and_then-done (exited code, d) k d' h = absurd (cc)
  and_then-done (unfinished, d) k d' h = absurd (cc)

  -- Nothing else in the calls of Install starts a service, and nothing in Start creates or deletes one.
  starts-install :
      (executable : Result Bytes) (s : Transcript)
      → succeeded is_start (install host.scm agent_config executable s).1.calls
        ≡ succeeded is_start s.calls
  unfolding install create configure add_recovery add_non_crash add_source undo ask
  starts-install executable s = ground arith

  start-none :
      (s : Transcript)
      → (start host.scm service_name [] s).0 ≡ none
      → (succeeded is_start (start host.scm service_name [] s).1.calls
          ≡ suc (succeeded is_start s.calls))
        × (succeeded is_create (start host.scm service_name [] s).1.calls
            ≡ succeeded is_create s.calls)
        × (made is_delete (start host.scm service_name [] s).1.calls ≡ made is_delete s.calls)
  unfolding control opened_request make_request ask
  start-none s h = (ground (arith, h), ground (arith, h), ground (arith, h))

  manager-ensure_admin :
      (cmd : Bytes) (d : Desk) → (ensure_admin host fuel cmd d).1.manager ≡ d.manager
  unfolding ensure_admin
  manager-ensure_admin cmd d =
      let again =
        elevate host.os host.env host.escape_arg host.working_dir
          (path_text host fuel host.executable) fuel (cmd ∷ []) (next d.world) in
      ground (arith, manager-after_elevate host fuel again d)

  manager-tell : (m : Message) (d : Desk) → (tell host fuel m d).1.manager ≡ d.manager
  unfolding tell
  manager-tell m d = manager-report host fuel m d

  start_error-none : (r : Option Error) → start_error host fuel r ≡ none → r ≡ none
  unfolding start_error
  start_error-none none h = refl
  start_error-none (some e) h = absurd (cc)

  install-start :
      (executable : Result Bytes) (s : Transcript)
      → (install host.scm agent_config executable s).0 ≡ none
      → (start host.scm service_name [] (install host.scm agent_config executable s).1).0 ≡ none
      → IsInstalled s
          (start host.scm service_name [] (install host.scm agent_config executable s).1).1
  install-start executable s installed started =
      let s1 = (install host.scm agent_config executable s).1 in
      let (created, deleted) =
        subst (λ r. IsSettled host.scm agent_config s (r, s1)) installed
          (install_settles host.scm agent_config executable s).0 in
      let (starts, creates, deletes) = start-none s1 started in
      (creates ∙ created, starts ∙ ap suc (starts-install executable s), deletes ∙ deleted)

  -- If the install command ends without an error in this process, then a service was created and
  -- started, and none deleted.
  pub install_command_honest :
      (d d' : Desk)
      → dispatch host fuel install_command d ≡ (returned none, d')
      → IsInstalled d.manager d'.manager
  unfolding dispatch do_install install_service start_installed
  install_command_honest d d' h =
      let (a1, h1) = and_then-done (ensure_admin host fuel (text "install") d) _ d' h in
      let d1 = (ensure_admin host fuel (text "install") d).1 in
      let (a2, h2) = and_then-done (install_service host fuel d1) _ d' h1 in
      let d2 = (install_service host fuel d1).1 in
      let (a3, h3) = and_then-done (start_installed host fuel d2) _ d' h2 in
      let d3 = (start_installed host fuel d2).1 in
      let same = manager-ensure_admin (text "install") d in
      let last : d'.manager ≡ d3.manager =
        sym (ap (λ (x : Ending × Desk). x.1.manager) h3) ∙ manager-tell _ d3 in
      let done =
        install-start (path_text host fuel host.executable) d1.manager (returned_inj a2)
          (start_error-none _ (returned_inj a3)) in
      subst (λ s. IsInstalled s d'.manager) same (subst (IsInstalled d1.manager) (sym last) done)
