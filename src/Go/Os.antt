-- ===== src/Go/Os.antt =====
-- The calls of Go's standard library that the program makes: files of package os, io.Copy, requests
-- of net/http, time, contexts, and the logger. Each one may fail as the environment says.
use Prim.Native.String.{String}
use winsvr.Base.{
  ℕ, Bool, true, false, Option, none, some, List, [], ◌∷◌, ◌++◌, if◌then◌else◌, length, take, leb,
}
use winsvr.Base.Int.{ℤ, pos_part}
use winsvr.Base.Bytes.{Bytes, bytes_eq}
use winsvr.Base.Decimal.{format_uint}
use winsvr.Go.Error.{Error, sentinel, exist, not_exist, ok, err}
use winsvr.Go.World.{
  Env, World, next, FilePath, Node, Op, Method, Response, Level, Value, Event, requested, renamed,
  slept,
}
use Op.{op_open, op_read, op_write, op_close, op_create, op_remove, op_rename, op_stat, op_read_dir}
use winsvr.Go.Exec.{Exec}
use winsvr.Go.Files.{FileMap, find, erase, store}

-- One entry of os.ReadDir.
pub record DirEntry : Type 0 where
  pub name : Bytes
  pub is_dir : Bool

unfoldable pub without : Bytes → List DirEntry → List DirEntry
without name [] = []
without name (e ∷ es) =
    let rest = without name es in if bytes_eq e.name name then rest else e ∷ rest

-- os.ReadDir: the entries of a directory, each name once.
unfoldable pub entries_of : Bytes → FileMap → List DirEntry
entries_of dir [] = []
entries_of dir ((p, n) ∷ fs) =
    let rest = entries_of dir fs in
    if bytes_eq p.dir dir
    then record { name = p.base; is_dir = n.is_dir } ∷ without p.base rest
    else rest

-- slog.Logger.Log, on a logger that keeps its records.
unfoldable pub log_record : Level → String → List (String × Value) → World → World
log_record level message attrs w = record w {
  log = w.log ++ (record { level = level; message = message; attrs = attrs } ∷ []);
}

unfoldable pub emit : Event → World → World
emit e w = record w { events = w.events ++ (e ∷ []) }

module _ (env : Env) {A : Type 0} where
  -- A system call fails as the environment says, or does its work.
  unfoldable pub syscall : Op → Exec A → Exec A
  syscall op act w = elim (env.fault w.tick op) [ some e ↦ (err e, next w) | none ↦ act (next w) ]

-- The node at a path, or os.ErrNotExist.
unfoldable pub existing : Option Node → Exec Node
existing none w = (err (sentinel not_exist), w)
existing (some n) w = (ok n, w)

unfoldable pub move : FilePath → FilePath → Option Node → Exec (Unit {0})
move p q none w = (err (sentinel not_exist), w)
move p q (some n) w = (ok tt, record w { files = store q n (erase p w.files) })

unfoldable pub take_away : FilePath → Option Node → Exec (Unit {0})
take_away p none w = (err (sentinel not_exist), w)
take_away p (some n) w = (ok tt, record w { files = erase p w.files })

abbrev pub file : Bytes → ℕ → Node
file content mod_time = record { content = content; mod_time = mod_time; is_dir = false }

-- A new file, unless something stands there.
unfoldable pub create_new : FilePath → ℕ → Option Node → Exec FilePath
create_new p now none w = (ok p, record w { files = store p (file [] now) w.files })
create_new p now (some n) w = (err (sentinel exist), w)

module _ (env : Env) where
  -- os.Stat, and DirEntry.Info.
  unfoldable pub os_stat : FilePath → Exec Node
  unfolding existing
  os_stat p = syscall env op_stat (λ w. existing (find p w.files) w)

  -- os.Open; the handle is the node.
  unfoldable pub os_open : FilePath → Exec Node
  unfolding existing
  os_open p = syscall env op_open (λ w. existing (find p w.files) w)

  -- Reading an open file to its end.
  unfoldable pub read_all : Node → Exec Bytes
  read_all n = syscall env op_read (λ w. (ok n.content, w))

  unfoldable pub os_remove : FilePath → Exec (Unit {0})
  unfolding take_away
  os_remove p = syscall env op_remove (λ w. take_away p (find p w.files) w)

  unfoldable pub os_rename : FilePath → FilePath → Exec (Unit {0})
  unfolding move
  os_rename p q =
      syscall env op_rename (λ w. let w' = emit (renamed p q) w in move p q (find p w'.files) w')

  unfoldable pub os_read_dir : Bytes → Exec (List DirEntry)
  os_read_dir dir = syscall env op_read_dir (λ w. (ok (entries_of dir w.files), w))

  -- os.CreateTemp with the pattern `prefix ++ "*"`. The number is the last one that it tries.
  unfoldable pub os_create_temp : Bytes → Bytes → Exec FilePath
  unfolding create_new
  os_create_temp dir prefix = syscall env op_create λ w.
      let p : FilePath = record { dir = dir; base = prefix ++ format_uint (env.random w.tick) } in
      create_new p (env.now w.tick) (find p w.files) w

  -- io.Copy of at most `limit` bytes of a body into a file: the bytes copied, and the error that
  -- stopped the copy. A write that fails writes nothing. A reader that has reached its limit does
  -- not see how the body ends.
  unfoldable pub copy_limited : FilePath → Response → ℤ → World → (ℕ × Option Error) × World
  copy_limited p resp limit w = elim (env.fault w.tick op_write) [
    | some e ↦ ((0, some e), next w)
    | none ↦
        let taken = take (pos_part limit) resp.body in
        let stop = if leb (pos_part limit) (length resp.body) then none else resp.broken in
        (
          (length taken, stop),
          record (next w) { files = store p (file taken (env.now w.tick)) w.files },
        )
  ]

  -- File.Close: its error, if it has one.
  unfoldable pub close_file : World → Option Error × World
  close_file w = (env.fault w.tick op_close, next w)

  -- os.WriteFile truncates the file when it opens it; a write that fails leaves it empty.
  unfoldable pub write_file : FilePath → Bytes → Exec (Unit {0})
  write_file p content = syscall env op_open λ w.
      let opened = record w { files = store p (file [] (env.now w.tick)) w.files } in
      syscall env op_write
        (λ w'. (ok tt, record w' { files = store p (file content (env.now w.tick)) w'.files }))
        opened

  -- A request, up to the headers of its response.
  unfoldable pub send : Method → Bytes → Exec Response
  send method url w = (env.http w.tick method url, next (emit (requested method) w))

  -- ctx.Err().
  unfoldable pub ctx_err : World → Option Error × World
  ctx_err w = (env.ctx_err w.tick, next w)

  -- time.Now().
  unfoldable pub now : World → ℕ × World
  now w = (env.now w.tick, next w)

  -- A select between ctx.Done and a timer of `d`. While the context is live the timer fires; once it
  -- is done within `d`, either may be chosen. The answer says that the timer was.
  unfoldable pub wait_timer : ℤ → World → Bool × World
  wait_timer d w =
      let w' = next (emit (slept d) w) in
      elim (env.ctx_err w'.tick) [ none ↦ (true, w') | some e ↦ (env.timer_wins w.tick, w') ]
