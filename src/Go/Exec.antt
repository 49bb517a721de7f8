-- ===== src/Go/Exec.antt =====
-- Effects that may fail, as functions of the state. What was done before an error stays done. `Post`
-- states what holds after an effect, on success and on error, with one rule for each way to build
-- an effect.
use winsvr.Go.Error.{Error, Result, ok, err}
use winsvr.Go.World.{World}

abbrev pub Exec : Type 0 → Type 0
Exec A = World → Result A × World

module _ {A : Type 0} where
  abbrev pub pure : A → Exec A
  pure a w = (ok a, w)

  abbrev pub fail : Error → Exec A
  fail e w = (err e, w)

  -- The error is handed to the caller as a value.
  abbrev pub attempt : Exec A → Exec (Result A)
  attempt m w = let (r, w') = m w in (ok r, w')

  -- Back from a value to an effect that fails or not.
  abbrev pub lift : Result A → Exec A
  lift r w = (r, w)

module _ {A B : Type 0} where
  unfoldable pub continue : Result A → (A → Exec B) → Exec B
  continue (ok a) f w = f a w
  continue (err e) f w = (err e, w)

  infixl 10 ◌>>=◌ ◌>>◌
  unfoldable pub ◌>>=◌ : Exec A → (A → Exec B) → Exec B
  unfolding continue
  ◌>>=◌ m f w = let (r, w') = m w in continue r f w'

  abbrev pub ◌>>◌ : Exec A → Exec B → Exec B
  m >> n = m >>= λ _. n

module _ {A : Type 0} (Good : A → World → Type 0) (Bad : Error → World → Type 0) where
  -- What holds of a result and the state it came with.
  abbrev pub Post : Result A × World → Type 0
  Post (ok a, w) = Good a w
  Post (err e, w) = Bad e w
