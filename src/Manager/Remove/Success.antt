-- ===== src/Manager/Remove/Success.antt =====
-- What it means that Uninstall of manager_windows.go returns no error.
use winsvr.Base.{
  ℕ, suc, ◌+◌, ◌*◌, ◌≤◌, ◌<◌, ◌≡◌, refl, sym, ap, ◌∙◌, inl, inr, Option-cases, Bool, true, false,
  Option, none, some, arith,
}
use winsvr.Base.Bytes.{Bytes}
use winsvr.Backoff.{millisecond}
use winsvr.Manager.Calls.{Scm, Transcript, ask, connect, open_service, succeeded, is_delete}
use winsvr.Manager.Remove.{
  Stopping, settled, removal_report, remove_service, stop_and_wait, stop_and_remove,
  uninstall_connected, uninstall,
}
use winsvr.Manager.Remove.Stops.{
  HasStopped, stop_and_wait_sound, stop_and_wait-deletes, stop_and_wait_ends,
}

module _ (scm : Scm) (name : Bytes) where
  removal_report-none :
      (b : Bool) (o : Option _)
      → removal_report scm name (settled b o) ≡ none
      → settled b o ≡ settled true none
  unfolding removal_report
  removal_report-none true none h = refl
  removal_report-none false none h = absurd (cc)
  removal_report-none true (some e) h = absurd (cc)
  removal_report-none false (some e) h = absurd (cc)

  remove_service-none :
      (stopping : Stopping) (s : Transcript)
      → (remove_service scm name stopping s).0 ≡ none
      → (succeeded is_delete (remove_service scm name stopping s).1.calls
          ≡ suc (succeeded is_delete s.calls))
        × (s.tick ≤ (remove_service scm name stopping s).1.tick)
        × (removal_report scm name stopping ≡ none)
  unfolding remove_service ask
  remove_service-none stopping s h = ground arith

  -- The clock goes forward, and a sleep of 300 ms takes that time.
  abbrev pub HasClock : Type 0
  HasClock =
      ((t : ℕ) → scm.clock t ≤ scm.clock (t + 1))
      × ((t : ℕ) → scm.clock t + 300 * millisecond ≤ scm.clock (t + 1 + 1))

  -- The end that counts: the service was seen stopped, and then one was deleted.
  abbrev pub IsRemoved : Transcript → Transcript → Type 0
  IsRemoved s s' =
      HasStopped scm name s s' × (succeeded is_delete s'.calls ≡ suc (succeeded is_delete s.calls))

  module _ (ticks : HasClock) (fuel : ℕ) (enough : 68 ≤ fuel) where
    stop_and_remove-none :
        (s s' : Transcript) → stop_and_remove scm name fuel s ≡ (none, s') → IsRemoved s s'
    unfolding stop_and_remove ask
    stop_and_remove-none s s' h =
        let stopping = (stop_and_wait scm name fuel s).0 in
        let s1 = (stop_and_wait scm name fuel s).1 in
        let (b, o, ended) = stop_and_wait_ends scm name ticks.1 fuel s enough (ticks.0 s.tick) in
        let (deleted, forward, reported) = remove_service-none stopping s1 (ground (arith, h)) in
        let stopped : stopping ≡ settled true none =
          ended
          ∙ removal_report-none b o (ap (λ x. removal_report scm name x) (sym ended) ∙ reported) in
        let (t, after, before, seen) =
          stop_and_wait_sound scm name fuel s s1 (ap (λ x. (x, s1)) stopped) in
        (
          (t, after, ground (arith, h, before, forward), seen),
          ground (arith, h, deleted, stop_and_wait-deletes scm name fuel s),
        )

    -- Where the clock goes forward and a sleep of 300 ms takes that time, an Uninstall that returns no
    -- error, given fuel for 68 requests, has made one request to delete the service that succeeded,
    -- and one of its requests to stop was answered by a service that is stopped or not running.
    pub uninstall_removes :
        (s s' : Transcript) → uninstall scm name fuel s ≡ (none, s') → IsRemoved s s'
    unfolding uninstall uninstall_connected ask
    uninstall_removes s s' h = elim (Option-cases (scm.answer s.tick connect)) [
      | inr (e, bad) ↦ absurd (ground (arith, bad, h))
      | inl connected ↦ elim (Option-cases (scm.answer (s.tick + 1) (open_service name))) [
        | inr (e, bad) ↦ absurd (ground (arith, connected, bad, h))
        | inl opened ↦
            let s2 = (ask scm (open_service name) (ask scm connect s).1).1 in
            let r = stop_and_remove scm name fuel s2 in
            let ((t, after, before, seen), deleted) =
              stop_and_remove-none s2 r.1
                (ap (λ x. (x, r.1)) (ground (arith, connected, opened, h))) in
            let within : t < s'.tick = ground (arith, connected, opened, h, before) in
            let from : s.tick ≤ t = omega (arith, after) in
            ((t, from, within, seen), ground (arith, connected, opened, h, deleted))
      ]
    ]
