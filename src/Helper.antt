-- ===== src/Helper.antt =====
-- example/helper/main.go: the payload of the example, which writes a heartbeat file as the user.
pub mod Beats
use winsvr.Base.{ℕ, Bool, true, false, List, [], ◌∷◌, ◌++◌}
use winsvr.Base.Bytes.{Bytes, text}
use winsvr.Base.Decimal.{format_uint}
use winsvr.Go.World.{Env, World, FilePath}
use winsvr.Go.Os.{write_file, now}

-- os.TempDir, the variable USERNAME, os.Getpid, and what Format makes of a time, in RFC 3339.
pub record User : Type 0 where
  pub temp_dir : Bytes
  pub name : Bytes
  pub pid : ℕ
  pub format_time : ℕ → Bytes

-- What the select receives: the context is done, or five seconds have passed.
pub data Wake : Type 0 where
  done ticked : Wake

module _ (env : Env) (user : User) where
  unfoldable pub heartbeat : FilePath
  heartbeat = record { dir = user.temp_dir; base = text "winsvr-helper.txt" }

  unfoldable pub line : ℕ → Bytes
  line t =
      user.format_time t
      ++ (text " alive as " ++ (user.name ++ (text " pid=" ++ (format_uint user.pid ++ (10 ∷ [])))))

  -- The closure `write`; the error of os.WriteFile is dropped.
  unfoldable pub write : World → World
  write w = let (t, w') = now env w in (write_file env heartbeat (line t) w').1

  -- The loop, over what its select receives. The answer says that main has returned.
  unfoldable pub loop : List Wake → World → Bool × World
  loop [] w = (false, w)
  loop (done ∷ wakes) w = (true, w)
  loop (ticked ∷ wakes) w = loop wakes (write w)

  unfoldable pub main : List Wake → World → Bool × World
  main wakes w = loop wakes (write w)
