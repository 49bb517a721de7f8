-- ===== src/Helper/Beats.antt =====
-- What the payload of the example writes (example/helper/main.go).
use winsvr.Base.{
  ℕ, zero, suc, ◌++◌, ◌+◌, ◌*◌, ◌≡◌, refl, ◌∙◌, Bool, true, false, Option, none, some, ap, List, [],
  ◌∷◌, arith,
}
use winsvr.Go.World.{Env, World, Node, FilePath, Op, path_eq, next}
use winsvr.Base.Bytes.{text}
use winsvr.Base.Decimal.{format_uint}
use winsvr.Go.Files.{FileMap, find}
use winsvr.Go.Effects.{files-write_file_ne, find-write_file_self}
use winsvr.Go.Os.{now, file}
use winsvr.Helper.{User, Wake, done, ticked, heartbeat, line, write, loop, main}

-- The ticks before the context is done.
unfoldable beats : List Wake → ℕ
beats [] = 0
beats (done ∷ wakes) = 0
beats (ticked ∷ wakes) = 1 + beats wakes

unfoldable is_stopped : List Wake → Bool
is_stopped [] = false
is_stopped (done ∷ wakes) = true
is_stopped (ticked ∷ wakes) = is_stopped wakes

unfoldable pub ticks : ℕ → List Wake
ticks zero = []
ticks (suc n) = ticked ∷ ticks n

beats-done :
    (n : ℕ) (rest : List Wake)
    → (beats (ticks n ++ (done ∷ rest)) ≡ n) × (is_stopped (ticks n ++ (done ∷ rest)) ≡ true)
unfolding ticks beats is_stopped
beats-done zero rest = (refl, refl)
beats-done (suc n) rest = (omega (arith, (beats-done n rest).0), (beats-done n rest).1)

beats-ticks : (n : ℕ) → (beats (ticks n) ≡ n) × (is_stopped (ticks n) ≡ false)
unfolding ticks beats is_stopped
beats-ticks zero = (refl, refl)
beats-ticks (suc n) = (omega (arith, (beats-ticks n).0), (beats-ticks n).1)

module _ (env : Env) (user : User) where
  find-write_ne :
      (p : FilePath) (w : World)
      → path_eq (heartbeat env user) p ≡ false
      → find p (write env user w).files ≡ find p w.files
  unfolding write now next
  find-write_ne p w apart = files-write_file_ne env (heartbeat env user) p _ (next w) apart

  find-loop_ne :
      (wakes : List Wake) (p : FilePath) (w : World)
      → path_eq (heartbeat env user) p ≡ false
      → find p (loop env user wakes w).1.files ≡ find p w.files
  unfolding loop
  find-loop_ne [] p w apart = refl
  find-loop_ne (done ∷ wakes) p w apart = refl
  find-loop_ne (ticked ∷ wakes) p w apart =
      find-loop_ne wakes p (write env user w) apart ∙ find-write_ne p w apart

  returned-loop : (wakes : List Wake) (w : World) → (loop env user wakes w).0 ≡ is_stopped wakes
  unfolding loop is_stopped
  returned-loop [] w = refl
  returned-loop (done ∷ wakes) w = refl
  returned-loop (ticked ∷ wakes) w = returned-loop wakes (write env user w)

  -- The file holds the line of a write that started at a tick, and another file is as it was.
  abbrev pub Beat : FileMap → FileMap → ℕ → FilePath → Type 0
  Beat fs fs' t p =
      (find (record { dir = user.temp_dir; base = text "winsvr-helper.txt" }) fs'
        ≡ some (
            file
              (user.format_time (env.now t)
                ++ (text " alive as "
                    ++ (user.name ++ (text " pid=" ++ (format_uint user.pid ++ (10 ∷ []))))))
              (env.now (t + 2))))
      × (find p fs' ≡ find p fs)

  -- The heartbeat file after a write that started at a tick.
  abbrev beat_at : ℕ → Option Node
  beat_at t = some (file (line env user (env.now t)) (env.now (t + 2)))

  module _ (opens : (t : ℕ) → env.fault t Op.op_open ≡ none)
      (writes : (t : ℕ) → env.fault t Op.op_write ≡ none) where
    write_works :
        (w : World)
        → (find (heartbeat env user) (write env user w).files ≡ beat_at w.tick)
          × ((write env user w).tick ≡ w.tick + 3)
    unfolding write now next
    write_works w =
        let (there, ticks) =
          find-write_file_self env (heartbeat env user) (line env user (env.now w.tick)) (next w)
            (opens (w.tick + 1)) (writes (w.tick + 1 + 1)) in
        let two : w.tick + 1 + 1 ≡ w.tick + 2 = omega arith in
        (
          there ∙ ap (λ t. some (file (line env user (env.now w.tick)) (env.now t))) two,
          omega (arith, ticks),
        )

    no_more : (w : World) → w.tick ≡ w.tick + 3 * 0
    no_more w = omega arith

    find-loop_self :
        (wakes : List Wake) (w : World)
        → find (heartbeat env user) (loop env user wakes (write env user w)).1.files
          ≡ beat_at (w.tick + 3 * beats wakes)
    unfolding loop beats
    find-loop_self [] w = (write_works w).0 ∙ ap beat_at (no_more w)
    find-loop_self (done ∷ wakes) w = (write_works w).0 ∙ ap beat_at (no_more w)
    find-loop_self (ticked ∷ wakes) w =
        let w' = write env user w in
        let later : w'.tick + 3 * beats wakes ≡ w.tick + 3 * (1 + beats wakes) =
          omega (arith, (write_works w).1) in
        find-loop_self wakes w' ∙ ap beat_at later

    Beat-main :
        {n : ℕ} (wakes : List Wake) (w : World) (p : FilePath)
        → path_eq (record { dir = user.temp_dir; base = text "winsvr-helper.txt" }) p ≡ false
        → beats wakes ≡ n
        → Beat w.files (main env user wakes w).1.files (w.tick + 3 * n) p
    unfolding main heartbeat line
    Beat-main wakes w p apart same = (
      find-loop_self wakes w ∙ ap (λ k. beat_at (w.tick + 3 * k)) same,
      find-loop_ne wakes p (write env user w) apart ∙ find-write_ne p w apart,
    )

    -- When no open and no write fails, and the context is done after `n` ticks, the payload of the
    -- example has returned, and the file winsvr-helper.txt of the temporary directory holds one line
    -- with the time of the last of its n + 1 writes, the user's name and the process's number, written
    -- two calls later; every other file is as it was. As long as the context is not done the same
    -- holds after `n` ticks, and the payload has not returned.
    pub heartbeat_exact :
        (n : ℕ) (rest : List Wake) (w : World) (p : FilePath)
        → path_eq (record { dir = user.temp_dir; base = text "winsvr-helper.txt" }) p ≡ false
        → (((main env user (ticks n ++ (done ∷ rest)) w).0 ≡ true)
            × Beat w.files (main env user (ticks n ++ (done ∷ rest)) w).1.files (w.tick + 3 * n) p)
          × (((main env user (ticks n) w).0 ≡ false)
              × Beat w.files (main env user (ticks n) w).1.files (w.tick + 3 * n) p)
    unfolding main
    heartbeat_exact n rest w p apart =
        let w' = write env user w in
        let stopped = ticks n ++ (done ∷ rest) in
        let (stopped_beats, is_done) = beats-done n rest in
        let (open_beats, is_open) = beats-ticks n in
        (
          (returned-loop stopped w' ∙ is_done, Beat-main stopped w p apart stopped_beats),
          (returned-loop (ticks n) w' ∙ is_open, Beat-main (ticks n) w p apart open_beats),
        )
