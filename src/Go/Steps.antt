-- ===== src/Go/Steps.antt =====
-- The effects of the updater as steps of a state machine. What every kind of step keeps, and what is
-- kept by nothing and by two steps after one another, is kept by each effect that is made of them.
pub mod Kinds
use Prim.Native.String.{String}
use winsvr.Base.{
  ℕ, ◌≡◌, refl, Bool, true, false, Option, none, some, List, [], arith, Option-cases, inl, inr,
  if◌then◌else◌,
}
use winsvr.Base.Int.{ℤ}
use winsvr.Base.Bytes.{Bytes}
use winsvr.Go.Error.{Error, Result, ok, err}
use winsvr.Go.World.{
  Env, World, FilePath, Node, Method, Response, Op, Record, Level, Value, Event, requested, renamed,
  slept, next,
}
use Op.{op_open, op_read, op_write, op_close, op_remove, op_rename, op_stat, op_read_dir, op_create}
use winsvr.Go.Exec.{Exec, ◌>>=◌, continue}
use winsvr.Go.Files.{FileMap, find, store}
use winsvr.Go.Os.{
  syscall, existing, move, take_away, create_new, os_stat, os_open, read_all, os_remove, os_rename,
  os_read_dir, os_create_temp, copy_limited, close_file, write_file, send, ctx_err, now, wait_timer,
  emit, log_record, entries_of, file,
}

-- The events of an update: requests, renames and waits.
unfoldable pub is_update_event : Event → Bool
is_update_event (requested m) = true
is_update_event (renamed p q) = true
is_update_event (slept d) = true
is_update_event _ = false

pub record IsKept (R : World → World → Type 0) : Type 0 where
  pub same : (w : World) → R w w
  pub both : (a b c : World) → R a b → R b c → R a c
  pub ticked : (w : World) → R w (next w)
  pub logged : (w : World) (l : List Record) → R w (record w { log = l })
  pub stored : (w : World) (fs : FileMap) → R w (record w { files = fs })
  pub emitted : (e : Event) (w : World) → is_update_event e ≡ true → R w (emit e w)

module _ (R : World → World → Type 0) (k : IsKept R) where
  abbrev pub Along : {A : Type 0} → Exec A → Type 0
  Along m = (w : World) → R w (m w).1

  pub Along-bind :
      {A B : Type 0} (m : Exec A) (f : A → Exec B)
      → Along m
      → ((a : A) → Along (f a))
      → Along (m >>= f)
  unfolding ◌>>=◌ continue
  Along-bind m f p q w = go (m w).0 (m w).1 (p w)
    where
      go : (r : Result _) (w' : World) → R w w' → R w (continue r f w').1
      go (ok a) w' t = k.both w w' (f a w').1 t (q a w')
      go (err e) w' t = t

  module _ (env : Env) where
    Along-syscall : {A : Type 0} (op : Op) (act : Exec A) → Along act → Along (syscall env op act)
    unfolding syscall
    Along-syscall op act p w =
        ground (arith, k.ticked w, p (next w), k.both w (next w) (act (next w)).1)

    pub Along-os_stat : (p : FilePath) → Along (os_stat env p)
    unfolding os_stat existing
    Along-os_stat p = Along-syscall op_stat _ (λ w. ground (arith, k.same w))

    pub Along-os_open : (p : FilePath) → Along (os_open env p)
    unfolding os_open existing
    Along-os_open p = Along-syscall op_open _ (λ w. ground (arith, k.same w))

    pub Along-read_all : (n : Node) → Along (read_all env n)
    unfolding read_all
    Along-read_all n = Along-syscall op_read _ (λ w. k.same w)

    pub Along-os_remove : (p : FilePath) → Along (os_remove env p)
    unfolding os_remove
    Along-os_remove p = Along-syscall op_remove _ (λ w. taken (find p w.files) w)
      where
        taken : (n : Option Node) (w : World) → R w (take_away p n w).1
        taken none w = k.same w
        taken (some n) w = k.stored w _

    pub Along-os_rename : (p q : FilePath) → Along (os_rename env p q)
    unfolding os_rename move is_update_event
    Along-os_rename p q = Along-syscall op_rename _ (λ w.
        let w' = emit (renamed p q) w in
        k.both w w' _ (k.emitted (renamed p q) w refl) (moved (find p w'.files) w'))
      where
        moved : (n : Option Node) (w : World) → R w (move p q n w).1
        moved none w = k.same w
        moved (some n) w = k.stored w _

    pub Along-os_read_dir : (dir : Bytes) → Along (os_read_dir env dir)
    unfolding os_read_dir
    Along-os_read_dir dir = Along-syscall op_read_dir _ (λ w. k.same w)

    pub Along-os_create_temp : (dir prefix : Bytes) → Along (os_create_temp env dir prefix)
    unfolding os_create_temp create_new
    Along-os_create_temp dir prefix =
        Along-syscall op_create _ (λ w. created _ _ (find _ w.files) w)
      where
        created : (p : FilePath) (t : ℕ) (n : Option Node) (w : World) → R w (create_new p t n w).1
        created p t none w = k.stored w _
        created p t (some n) w = k.same w

    pub Along-write_file : (p : FilePath) (content : Bytes) → Along (write_file env p content)
    unfolding write_file
    Along-write_file p content = Along-syscall op_open _ (λ w.
        let opened : World = record w { files = store p (file [] (env.now w.tick)) w.files } in
        k.both w opened _ (k.stored w _) (Along-syscall op_write _ (λ w'. k.stored w' _) opened))

    pub along-copy_limited :
        (p : FilePath) (resp : Response) (limit : ℤ) (w : World)
        → R w (copy_limited env p resp limit w).1
    unfolding copy_limited
    along-copy_limited p resp limit w = elim (Option-cases (env.fault w.tick op_write)) [
      | inr (e, bad) ↦ rw (copy_limited, bad) (k.ticked w)
      | inl fine ↦ rw (copy_limited, fine) (k.both w (next w) _ (k.ticked w) (k.stored (next w) _))
    ]

    pub along-close_file : (w : World) → R w (close_file env w).1
    unfolding close_file
    along-close_file w = k.ticked w

    pub along-ctx_err : (w : World) → R w (ctx_err env w).1
    unfolding ctx_err
    along-ctx_err w = k.ticked w

    pub along-now : (w : World) → R w (now env w).1
    unfolding now
    along-now w = k.ticked w

    pub Along-send : (m : Method) (url : Bytes) → Along (send env m url)
    unfolding send is_update_event
    Along-send m url w =
        let w' = emit (requested m) w in
        k.both w w' (next w') (k.emitted (requested m) w refl) (k.ticked w')

    pub along-wait_timer : (d : ℤ) (w : World) → R w (wait_timer env d w).1
    unfolding wait_timer is_update_event
    along-wait_timer d w =
        let w' = emit (slept d) w in
        ground (arith, k.both w w' (next w') (k.emitted (slept d) w refl) (k.ticked w'))

  pub along-logs :
      (said : Bool) (level : Level) (message : String) (attrs : List (String × Value)) (w : World)
      → R w (if said then log_record level message attrs w else w)
  unfolding log_record
  along-logs true level message attrs w = k.logged w _
  along-logs false level message attrs w = k.same w
