-- ===== src/Tests/Data.antt =====
-- An environment, a server, a payload and a state file for the tests.
use winsvr.Base.{ℕ, ◌≡◌, ◌≤◌, arith, true, false, Option, none, some, [], ◌∷◌, ltb, if◌then◌else◌}
use winsvr.Base.Int.{pos}
use winsvr.Base.Bytes.{Bytes, text}
use winsvr.Go.Error.{Error, sentinel, context_canceled, errorf, ok}
use winsvr.Go.World.{Env, World, FilePath, Node, Response, Op}
use Op.{op_rename}
use winsvr.Update.Config.{Updater, PayloadInfo, no_info, Codec}
use winsvr.Update.Fetch.Outcome.{IsSane}
use winsvr.Supervisor.Updates.{IsLasting}

-- The release that the server has.
abbrev pub release : Response
release = record {
  status = 200;
  etag = text "v2";
  content_length = pos 3;
  body = text "new";
  broken = none;
}

-- Nothing fails, and the service is stopped at tick 100.
abbrev pub calm : Env
calm = record {
  fault = λ t op. none;
  now = λ t. 7_200_000_000_000;
  random = λ t. 7;
  ctx_err = λ t. if ltb t 100 then none else some (sentinel context_canceled);
  timer_wins = λ t. false;
  http = λ t m url. ok release;
}

abbrev locked : Op → Option Error
locked op_rename = some (errorf "locked" [])
locked _ = none

-- A scanner holds every new file.
abbrev pub scanned : Env
scanned = record calm { fault = λ t op. locked op }

-- A stand-in for encoding/json: the checksum, then the ETag.
abbrev read_back : Bytes → PayloadInfo
read_back [] = no_info
read_back (c ∷ e) = record { etag = e; crc64 = c }

abbrev pub codec : Codec
codec = record { encode = λ i. ok (i.crc64 ∷ i.etag); decode = read_back }

abbrev pub helper : FilePath
helper = record { dir = text "C:\\svc"; base = text "helper.bin" }

abbrev pub updater : Updater
updater = record {
  url = text "https://dl.example.com/helper.bin";
  path = helper;
  max_bytes = pos 0;
  has_logger = true;
}

abbrev pub plain_file : Bytes → Node
plain_file content = record { content = content; mod_time = 0; is_dir = false }

-- The old release, with no record, and a download abandoned an hour and more ago.
abbrev pub before : World
before = record {
  tick = 0;
  files =
      (helper, plain_file (text "old"))
      ∷ (record { dir = text "C:\\svc"; base = text "helper.bin.tmp-42" }, plain_file (text "ne"))
      ∷ (
        record { dir = text "C:\\svc"; base = text "helper.bin.tmp-007" },
        plain_file (text "mine"),
      )
      ∷ [];
  log = [];
  events = [];
}

pub calm-IsSane : IsSane calm updater
calm-IsSane = record { finite = λ t m url resp e. ground (arith, e); limit_fits = omega arith }

pub scanned-IsSane : IsSane scanned updater
scanned-IsSane = record { finite = λ t m url resp e. ground (arith, e); limit_fits = omega arith }

-- From tick 100 on the service is being stopped.
pub calm_stops : (t : ℕ) → 100 ≤ t → (e : Error) × (calm.ctx_err t ≡ some e)
calm_stops t h = (sentinel context_canceled, ground arith)

-- It stays so.
pub calm-IsLasting : IsLasting calm
calm-IsLasting t t' later e over = (sentinel context_canceled, ground (arith, later, over))
