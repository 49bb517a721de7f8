-- ===== src/Go/Effects.antt =====
-- What each call of Go/Os does to the files, and what its success says.
use winsvr.Base.{◌+◌, ◌≡◌, refl, ◌⊎◌, inl, inr, false, none, some, arith, Option-cases, ◌++◌, []}
use winsvr.Base.Int.{ℤ}
use winsvr.Base.Bytes.{Bytes}
use winsvr.Base.Decimal.{format_uint}
use winsvr.Go.Error.{Error, Result, ok, err}
use winsvr.Go.World.{Env, World, next, FilePath, Node, Op, Method, path_eq}
use winsvr.Go.Exec.{Exec, ◌>>=◌, continue}
use winsvr.Go.Files.{find, erase, store, find-erase, find-store, path_eq_refl}
use winsvr.Go.Os.{
  syscall, os_stat, os_open, read_all, os_remove, os_rename, os_read_dir, emit, os_create_temp,
  close_file, write_file, send, wait_timer, file,
}

-- A bind that succeeded: both its parts did.
pub bind-eq-ok :
    {A B : Type 0} (m : Exec A) (f : A → Exec B) (w : World) {b : B} {w' : World}
    → (m >>= f) w ≡ (ok b, w')
    → (a : A) × ((m w).0 ≡ ok a) × (f a (m w).1 ≡ (ok b, w'))
unfolding ◌>>=◌
bind-eq-ok {A} {B} m f w {b} {w'} h = go (m w).0 refl h
  where
    go :
        (r : Result A)
        → (m w).0 ≡ r
        → continue r f (m w).1 ≡ (ok b, w')
        → (a : A) × ((m w).0 ≡ ok a) × (f a (m w).1 ≡ (ok b, w'))
    go (ok a) e k = (a, e, k)
    go (err x) e k = absurd (cc)

-- A bind that failed: its first part failed, or its second did.
pub bind-eq-err :
    {A B : Type 0} (m : Exec A) (f : A → Exec B) (w : World) {e : Error} {w' : World}
    → (m >>= f) w ≡ (err e, w')
    → (((m w).0 ≡ err e) × ((m w).1 ≡ w'))
      ⊎ ((a : A) × ((m w).0 ≡ ok a) × (f a (m w).1 ≡ (err e, w')))
unfolding ◌>>=◌
bind-eq-err {A} {B} m f w {e} {w'} h = go (m w).0 refl h
  where
    go :
        (r : Result A)
        → (m w).0 ≡ r
        → continue r f (m w).1 ≡ (err e, w')
        → (((m w).0 ≡ err e) × ((m w).1 ≡ w'))
          ⊎ ((a : A) × ((m w).0 ≡ ok a) × (f a (m w).1 ≡ (err e, w')))
    go (ok a) q k = inr (a, q, k)
    go (err x) q k = inl (ground arith, ground arith)

-- The same, in the form of a case rule: what follows from the parts follows from the whole.
pub on_ok :
    {A B C : Type 0} (m : Exec A) (f : A → Exec B) (w : World) {b : B} {w' : World}
    → (m >>= f) w ≡ (ok b, w')
    → ((a : A) → (m w).0 ≡ ok a → f a (m w).1 ≡ (ok b, w') → C)
    → C
on_ok m f w h k = let (a, r, rest) = bind-eq-ok m f w h in k a r rest

pub on_err :
    {A B C : Type 0} (m : Exec A) (f : A → Exec B) (w : World) {e : Error} {w' : World}
    → (m >>= f) w ≡ (err e, w')
    → ((m w).0 ≡ err e → (m w).1 ≡ w' → C)
    → ((a : A) → (m w).0 ≡ ok a → f a (m w).1 ≡ (err e, w') → C)
    → C
on_err m f w h first second = elim (bind-eq-err m f w h) [
  | inl (r, last) ↦ first r last
  | inr (a, r, rest) ↦ second a r rest
]

-- Any result is one or the other.
pub Result-cases :
    {A : Type 0} (r : Result A) → ((e : Error) × (r ≡ err e)) ⊎ ((a : A) × (r ≡ ok a))
Result-cases (ok a) = inr (a, refl)
Result-cases (err e) = inl (e, refl)

module _ (env : Env) where
  pub files-os_stat : (p : FilePath) (w : World) → (os_stat env p w).1.files ≡ w.files
  unfolding os_stat syscall next
  files-os_stat p w = ground arith

  pub os_stat_ok :
      (p : FilePath) (w : World) (n : Node) → (os_stat env p w).0 ≡ ok n → find p w.files ≡ some n
  unfolding os_stat syscall next
  os_stat_ok p w n h = ground arith

  pub files-os_open : (p : FilePath) (w : World) → (os_open env p w).1.files ≡ w.files
  unfolding os_open syscall next
  files-os_open p w = ground arith

  pub files-read_all : (n : Node) (w : World) → (read_all env n w).1.files ≡ w.files
  unfolding read_all syscall next
  files-read_all n w = ground arith

  pub find-os_remove_ne :
      (p q : FilePath) (w : World)
      → path_eq p q ≡ false
      → find q (os_remove env p w).1.files ≡ find q w.files
  unfolding os_remove syscall next
  find-os_remove_ne p q w h = ground (arith, find-erase p q w.files)

  -- The file is gone, or the call failed and changed nothing.
  pub find-os_remove_self :
      (p : FilePath) (w : World)
      → (find p (os_remove env p w).1.files ≡ none)
        ⊎ ((e : Error) × (env.fault w.tick Op.op_remove ≡ some e)
            × (find p (os_remove env p w).1.files ≡ find p w.files))
  unfolding os_remove syscall next
  find-os_remove_self p w = elim (Option-cases (env.fault w.tick Op.op_remove)) [
    | inl fine ↦ inl (ground (arith, find-erase p p w.files, path_eq_refl p))
    | inr (e, bad) ↦ inr (e, bad, ground arith)
  ]

  pub files-send : (m : Method) (url : Bytes) (w : World) → (send env m url w).1.files ≡ w.files
  unfolding send next emit
  files-send m url w = refl

  pub files-close_file : (w : World) → (close_file env w).1.files ≡ w.files
  unfolding close_file next
  files-close_file w = refl

  pub files-wait_timer : (d : ℤ) (w : World) → (wait_timer env d w).1.files ≡ w.files
  unfolding wait_timer next emit
  files-wait_timer d w = ground arith

  pub files-os_read_dir : (dir : Bytes) (w : World) → (os_read_dir env dir w).1.files ≡ w.files
  unfolding os_read_dir syscall next
  files-os_read_dir dir w = ground arith

  pub tick-os_read_dir : (dir : Bytes) (w : World) → (os_read_dir env dir w).1.tick ≡ w.tick + 1
  unfolding os_read_dir syscall next
  tick-os_read_dir dir w = ground arith

  -- A new file: there was none at its path.
  pub os_create_temp_ok :
      (dir prefix : Bytes) (w : World) {p : FilePath}
      → (os_create_temp env dir prefix w).0 ≡ ok p
      → ((s : Bytes) × (p ≡ record { dir = dir; base = prefix ++ s }))
        × (find p w.files ≡ none)
        × ((os_create_temp env dir prefix w).1.files
            ≡ store p (file [] (env.now (w.tick + 1))) w.files)
  unfolding os_create_temp syscall next
  os_create_temp_ok dir prefix w {p} h =
      ((format_uint (env.random (w.tick + 1)), ground arith), ground arith, ground arith)

  pub os_create_temp_err :
      (dir prefix : Bytes) (w : World) {e : Error}
      → (os_create_temp env dir prefix w).0 ≡ err e
      → (os_create_temp env dir prefix w).1.files ≡ w.files
  unfolding os_create_temp syscall next
  os_create_temp_err dir prefix w h = ground arith

  pub os_rename_err :
      (p q : FilePath) (w : World) {e : Error}
      → (os_rename env p q w).0 ≡ err e
      → (os_rename env p q w).1.files ≡ w.files
  unfolding os_rename syscall next emit
  os_rename_err p q w h = ground arith

  pub os_rename_ok :
      (p q : FilePath) (w : World) {a : Unit {0}}
      → (os_rename env p q w).0 ≡ ok a
      → (n : Node) × (find p w.files ≡ some n)
        × ((os_rename env p q w).1.files ≡ store q n (erase p w.files))
  unfolding os_rename syscall next emit
  os_rename_ok p q w h = ground arith

  pub files-write_file_ne :
      (p q : FilePath) (content : Bytes) (w : World)
      → path_eq p q ≡ false
      → find q (write_file env p content w).1.files ≡ find q w.files
  unfolding write_file syscall next
  files-write_file_ne p q content w h = ground (
    arith,
    h,
    find-store p q (file [] (env.now (w.tick + 1))) w.files,
    find-store p q (file content (env.now (w.tick + 1)))
        (store p (file [] (env.now (w.tick + 1))) w.files),
  )

  -- A write that works.
  pub find-write_file_self :
      (p : FilePath) (content : Bytes) (w : World)
      → env.fault w.tick Op.op_open ≡ none
      → env.fault (w.tick + 1) Op.op_write ≡ none
      → (find p (write_file env p content w).1.files ≡ some (file content (env.now (w.tick + 1))))
        × ((write_file env p content w).1.tick ≡ w.tick + 2)
  unfolding write_file syscall next
  find-write_file_self p content w opened written = (
    ground (
      arith,
      opened,
      written,
      find-store p p (file content (env.now (w.tick + 1)))
          (store p (file [] (env.now (w.tick + 1))) w.files),
      path_eq_refl p,
    ),
    ground (arith, opened, written),
  )

  -- os.ReadFile.
  pub files-read :
      (p : FilePath) (w : World) → ((os_open env p >>= read_all env) w).1.files ≡ w.files
  unfolding os_open read_all syscall next ◌>>=◌
  files-read p w = ground arith

  pub read_ok :
      (p : FilePath) (w : World) (content : Bytes)
      → ((os_open env p >>= read_all env) w).0 ≡ ok content
      → (n : Node) × (find p w.files ≡ some n) × (content ≡ n.content)
  unfolding os_open read_all syscall next ◌>>=◌
  read_ok p w content h = ground arith
