-- ===== src/Go/World.antt =====
-- The state that the program's effects read and change, and the environment that answers them.
use Prim.Native.String.{String}
use winsvr.Base.{ℕ, ◌+◌, ◌≡◌, ◌↔◌, Bool, true, ◌&&◌, Option, List, arith}
use winsvr.Base.Int.{ℤ}
use winsvr.Base.Bytes.{Bytes, bytes_eq, bytes_eq_iff}
use winsvr.Go.Error.{Error, Arg, Result}

-- A path, split as filepath.Dir and filepath.Base split it; filepath.Join puts it together.
pub record FilePath : Type 0 where
  pub dir : Bytes
  pub base : Bytes

unfoldable pub path_eq : FilePath → FilePath → Bool
path_eq p q = bytes_eq p.dir q.dir && bytes_eq p.base q.base

pub path_eq_iff : (p q : FilePath) → (path_eq p q ≡ true) ↔ (p ≡ q)
unfolding path_eq
path_eq_iff p q = (
  λ h. ground (arith, bytes_eq_iff p.dir q.dir, bytes_eq_iff p.base q.base),
  λ h. ground (arith, bytes_eq_iff p.dir q.dir, bytes_eq_iff p.base q.base),
)

-- What stands at a path. Times are nanoseconds.
pub record Node : Type 0 where
  pub content : Bytes
  pub mod_time : ℕ
  pub is_dir : Bool

pub data Method : Type 0 where
  head get : Method

-- What the server answered. A negative length means that it declared none; `broken` is the error
-- that ends the body, if it does not end well.
pub record Response : Type 0 where
  pub status : ℕ
  pub etag : Bytes
  pub content_length : ℤ
  pub body : Bytes
  pub broken : Option Error

-- The calls of the operating system that may fail.
pub data Op : Type 0 where
  op_open op_read op_write op_close op_create op_remove op_rename op_stat op_read_dir : Op

-- Everything that the program does not decide. An answer depends on the tick, which every effect
-- advances, so the answers to two calls are independent of one another.
pub record Env : Type 0 where
  pub fault : ℕ → Op → Option Error
  pub now : ℕ → ℕ
  pub random : ℕ → ℕ
  pub ctx_err : ℕ → Option Error
  pub timer_wins : ℕ → Bool
  pub http : ℕ → Method → Bytes → Result Response

pub data Level : Type 0 where
  debug info warn error : Level

pub data Value : Type 0 where
  arg : Arg → Value
  failure : Error → Value

pub record Record : Type 0 where
  pub level : Level
  pub message : String
  pub attrs : List (String × Value)

-- What a Windows call hands out, and has to get back: a token, an environment block, a job, a process,
-- a thread, or a list of sessions.
pub data Kind : Type 0 where
  of_token of_block of_job of_process of_thread of_list : Kind

pub record Resource : Type 0 where
  pub kind : Kind
  pub value : ℕ

-- What happens outside the process, in order.
pub data Event : Type 0 where
  requested : Method → Event
  renamed : FilePath → FilePath → Event
  slept : ℤ → Event
  launched : ℕ → Bool → Event
  closed : ℕ → Event
  acquired : Resource → Event
  released : Resource → Event
  terminated : Resource → Event

pub record World : Type 0 where
  pub tick : ℕ
  pub files : List (FilePath × Node)
  pub log : List Record
  pub events : List Event

unfoldable pub next : World → World
next w = record w { tick = w.tick + 1 }
