-- ===== src/Go/Steps/Kinds.antt =====
-- Two things that the steps of an update keep: the order of the ticks, and the launches so far.
use winsvr.Base.{ℕ, ◌+◌, ◌≤◌, ◌≡◌, refl, ◌∙◌, ◌++◌, List, [], ◌∷◌, arith}
use winsvr.Go.World.{World, Event, launched, next}
use winsvr.Go.Os.{emit}
use winsvr.Go.Steps.{IsKept, is_update_event}

abbrev pub IsForwardStep : World → World → Type 0
IsForwardStep w w' = w.tick ≤ w'.tick

pub tick-IsKept : IsKept IsForwardStep
unfolding next emit
tick-IsKept = record {
  same = λ w. omega arith;
  both = λ a b c p q. omega (arith, p, q);
  ticked = λ w. omega arith;
  logged = λ w l. omega arith;
  stored = λ w fs. omega arith;
  emitted = λ e w h. omega arith;
}

-- How many programs were launched.
unfoldable pub launches : List Event → ℕ
launches [] = 0
launches (launched sid elevated ∷ es) = 1 + launches es
launches (_ ∷ es) = launches es

launches-append : (xs ys : List Event) → launches (xs ++ ys) ≡ launches xs + launches ys
unfolding launches
launches-append [] ys = omega arith
launches-append (x ∷ xs) ys = ground (arith, launches-append xs ys)

-- Nothing was launched in between.
abbrev pub HasSameLaunches : World → World → Type 0
HasSameLaunches w w' = launches w'.events ≡ launches w.events

pub launches-IsKept : IsKept HasSameLaunches
unfolding next emit launches is_update_event
launches-IsKept = record {
  same = λ w. refl;
  both = λ a b c p q. q ∙ p;
  ticked = λ w. refl;
  logged = λ w l. refl;
  stored = λ w fs. refl;
  emitted = λ e w h. ground (arith, h, launches-append w.events (e ∷ []));
}
