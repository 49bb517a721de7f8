-- ===== src/Go/Files.antt =====
-- The file system as an association list, with its laws. A proof goes by the laws.
use winsvr.Base.{◌≡◌, refl, true, Option, none, some, List, [], ◌∷◌, arith, if◌then◌else◌}
use winsvr.Go.World.{FilePath, Node, path_eq, path_eq_iff}

abbrev pub FileMap : Type 0
FileMap = List (FilePath × Node)

unfoldable pub find : FilePath → FileMap → Option Node
find p [] = none
find p ((q, n) ∷ fs) = if path_eq q p then some n else find p fs

unfoldable pub erase : FilePath → FileMap → FileMap
erase p [] = []
erase p ((q, n) ∷ fs) = let rest = erase p fs in if path_eq q p then rest else (q, n) ∷ rest

unfoldable pub store : FilePath → Node → FileMap → FileMap
store p n fs = (p, n) ∷ erase p fs

pub path_eq_refl : (p : FilePath) → path_eq p p ≡ true
path_eq_refl p = (path_eq_iff p p).1 refl

pub find-erase :
    (p q : FilePath) (fs : FileMap)
    → find q (erase p fs) ≡ (if path_eq p q then none else find q fs)
unfolding find erase
find-erase p q [] = ground arith
find-erase p q ((r, n) ∷ fs) =
    ground (arith, find-erase p q fs, path_eq_iff r p, path_eq_iff r q, path_eq_iff p q)

pub find-store :
    (p q : FilePath) (n : Node) (fs : FileMap)
    → find q (store p n fs) ≡ (if path_eq p q then some n else find q fs)
unfolding find store
find-store p q n fs = ground (arith, find-erase p q fs)

pub ruleset file_laws = (find-erase, find-store, path_eq_refl)
