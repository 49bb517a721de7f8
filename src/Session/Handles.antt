-- ===== src/Session/Handles.antt =====
-- Accounting of what Windows hands out: for each way to build an effect of session_windows.go, what it
-- holds when it starts, and what its caller holds when it has succeeded. One that fails leaves
-- nothing open.
pub mod Rules
use winsvr.Base.{
  ℕ, Bool, true, false, ◌+◌, ◌≡◌, ◌&&◌, ◌==◌, if◌then◌else◌, arith, List, [], ◌∷◌, ◌++◌,
}
use winsvr.Go.Error.{Error, Result, ok, err}
use winsvr.Go.World.{
  World, next, Event, Kind, of_token, of_block, of_job, of_process, of_thread, of_list, Resource,
  acquired, released, terminated,
}
use winsvr.Go.Exec.{Exec}
use winsvr.Go.Os.{emit}

abbrev kind_number : Kind → ℕ
kind_number of_token = 0
kind_number of_block = 1
kind_number of_job = 2
kind_number of_process = 3
kind_number of_thread = 4
kind_number of_list = 5

-- 1 for the same resource, 0 for another.
unfoldable pub same : Resource → Resource → ℕ
same r h = if kind_number r.kind == kind_number h.kind && r.value == h.value then 1 else 0

-- How often `h` was handed out, and how often it was given back.
unfoldable pub times_acquired : Resource → List Event → ℕ
times_acquired h [] = 0
times_acquired h (acquired r ∷ es) = same r h + times_acquired h es
times_acquired h (_ ∷ es) = times_acquired h es

unfoldable pub times_released : Resource → List Event → ℕ
times_released h [] = 0
times_released h (released r ∷ es) = same r h + times_released h es
times_released h (_ ∷ es) = times_released h es

-- How often `h` is among the resources of a list.
abbrev pub times_held : Resource → List Resource → ℕ
times_held h [] = 0
times_held h (r ∷ rs) = same r h + times_held h rs

pub times_held-append :
    (h : Resource) (xs ys : List Resource)
    → times_held h (xs ++ ys) ≡ times_held h xs + times_held h ys
times_held-append h [] ys = omega arith
times_held-append h (x ∷ xs) ys = omega (arith, times_held-append h xs ys)

times_acquired-append :
    (h : Resource) (xs ys : List Event)
    → times_acquired h (xs ++ ys) ≡ times_acquired h xs + times_acquired h ys
unfolding times_acquired
times_acquired-append h [] ys = omega arith
times_acquired-append h (x ∷ xs) ys = ground (arith, times_acquired-append h xs ys)

times_released-append :
    (h : Resource) (xs ys : List Event)
    → times_released h (xs ++ ys) ≡ times_released h xs + times_released h ys
unfolding times_released
times_released-append h [] ys = omega arith
times_released-append h (x ∷ xs) ys = ground (arith, times_released-append h xs ys)

abbrev pub owned : {A : Type 0} → (A → List Resource) → Result A → List Resource
owned f (ok a) = f a
owned f (err e) = []

-- From `w` to `w'` the resources `hs` were given back, and the resources `gs` taken out.
abbrev pub Trades : List Resource → List Resource → World → World → Type 0
Trades hs gs w w' =
    (h : Resource)
    → times_acquired h w'.events + times_released h w.events + times_held h hs
      ≡ times_acquired h w.events + times_released h w'.events + times_held h gs

-- An effect that starts with `hs` open, and leaves to its caller what `f` says of its result.
abbrev pub Keeps : {A : Type 0} → List Resource → (A → List Resource) → Exec A → Type 0
Keeps hs f m = (w : World) → Trades hs (owned f (m w).0) w (m w).1

abbrev pub nothing : {A : Type 0} → A → List Resource
nothing a = []

pub Trades-next : (w : World) → Trades [] [] w (next w)
unfolding next
Trades-next w h = omega arith

pub Trades-acquire : (r : Resource) (w : World) → Trades [] (r ∷ []) w (next (emit (acquired r) w))
unfolding next emit times_acquired times_released
Trades-acquire r w h = omega (
  arith,
  times_acquired-append h w.events (acquired r ∷ []),
  times_released-append h w.events (acquired r ∷ []),
)

pub Trades-terminate : (r : Resource) (w : World) → Trades [] [] w (next (emit (terminated r) w))
unfolding next emit times_acquired times_released
Trades-terminate r w h = omega (
  arith,
  times_acquired-append h w.events (terminated r ∷ []),
  times_released-append h w.events (terminated r ∷ []),
)

pub Trades-release : (r : Resource) (w : World) → Trades (r ∷ []) [] w (next (emit (released r) w))
unfolding next emit times_acquired times_released
Trades-release r w h = omega (
  arith,
  times_acquired-append h w.events (released r ∷ []),
  times_released-append h w.events (released r ∷ []),
)

pub Trades-acquire_two :
    (p t : Resource) (w : World)
    → Trades [] (p ∷ t ∷ []) w (next (emit (acquired t) (next (emit (acquired p) w))))
Trades-acquire_two p t w h =
    omega (arith, Trades-acquire p w h, Trades-acquire t (next (emit (acquired p) w)) h)

-- Two steps after one another, and an event that is neither a taking out nor a giving back.
pub Trades-trans : (w1 w2 w3 : World) → Trades [] [] w1 w2 → Trades [] [] w2 w3 → Trades [] [] w1 w3
Trades-trans w1 w2 w3 s t h = omega (arith, s h, t h)

-- Whether the event is neither.
unfoldable pub is_quiet : Event → Bool
is_quiet (acquired r) = false
is_quiet (released r) = false
is_quiet _ = true

pub Trades-emit : (e : Event) (w : World) → is_quiet e ≡ true → Trades [] [] w (emit e w)
unfolding emit times_acquired times_released is_quiet
Trades-emit e w q h =
    ground (
      arith,
      q,
      times_acquired-append h w.events (e ∷ []),
      times_released-append h w.events (e ∷ []),
    )
