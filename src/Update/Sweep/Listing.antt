-- ===== src/Update/Sweep/Listing.antt =====
-- What a listing of the payload's directory says of its files, for sweepTemps of update.go.
use mathlib.Core.List.{Memᴰ}
use winsvr.Base.{
  ◌≡◌, sym, ap, ◌∙◌, ◌⊎◌, inl, inr, true, false, some, List, [], ◌∷◌, arith, Bool-cases,
}
use winsvr.Base.Bytes.{Bytes, bytes_eq, bytes_eq_iff}
use winsvr.Go.World.{FilePath, Node, path_eq, path_eq_iff}
use winsvr.Go.Files.{FileMap, find}
use winsvr.Go.Os.{DirEntry, without, entries_of}

abbrev pub plain_entry : FilePath → DirEntry
plain_entry p = record { name = p.base; is_dir = false }

abbrev named_in : Bytes → DirEntry → FilePath
named_in dir e = record { dir = dir; base = e.name }

Memᴰ-without :
    (x : DirEntry) (name : Bytes) (es : List DirEntry)
    → Memᴰ x es
    → bytes_eq x.name name ≡ false
    → Memᴰ x (without name es)
unfolding without
Memᴰ-without x name [] m other = elim m [ ]
Memᴰ-without x name (e ∷ es) (Memᴰ.head same) other =
    rw (sym (ap (λ (d : DirEntry). bytes_eq d.name name) same) ∙ other) (Memᴰ.head same)
Memᴰ-without x name (e ∷ es) (Memᴰ.tail m) other = elim (Bool-cases (bytes_eq e.name name)) [
  | inl dropped ↦ rw dropped (Memᴰ-without x name es m other)
  | inr kept ↦ rw kept (Memᴰ.tail (Memᴰ-without x name es m other))
]

Memᴰ-of-without :
    (x : DirEntry) (name : Bytes) (es : List DirEntry)
    → Memᴰ x (without name es)
    → Memᴰ x es × (bytes_eq x.name name ≡ false)
unfolding without
Memᴰ-of-without x name [] m = elim m [ ]
Memᴰ-of-without x name (e ∷ es) m = elim (Bool-cases (bytes_eq e.name name)) [
  | inl dropped ↦
      let (there, other) = Memᴰ-of-without x name es (rw dropped at m) in (Memᴰ.tail there, other)
  | inr kept ↦
      behind kept
        (λ m'. let (there, other) = Memᴰ-of-without x name es m' in (Memᴰ.tail there, other))
        (rw kept at m)
]
  where
    behind :
        bytes_eq e.name name ≡ false
        → (Memᴰ x (without name es) → Memᴰ x (e ∷ es) × (bytes_eq x.name name ≡ false))
        → Memᴰ x (e ∷ without name es)
        → Memᴰ x (e ∷ es) × (bytes_eq x.name name ≡ false)
    behind kept rest (Memᴰ.head same) =
        (Memᴰ.head same, ap (λ (d : DirEntry). bytes_eq d.name name) same ∙ kept)
    behind kept rest (Memᴰ.tail m') = rest m'

-- Two files of one directory have different names.
other_base :
    (p q : FilePath)
    → path_eq q p ≡ false
    → bytes_eq q.dir p.dir ≡ true
    → bytes_eq p.base q.base ≡ false
unfolding path_eq
other_base p q other sibling =
    ground (arith, other, sibling, bytes_eq_iff p.base q.base, bytes_eq_iff q.base p.base)

-- A file is among the entries of its directory.
pub Memᴰ-entries_of :
    (p : FilePath) (fs : FileMap) (n : Node)
    → find p fs ≡ some n
    → n.is_dir ≡ false
    → Memᴰ (plain_entry p) (entries_of p.dir fs)
unfolding find entries_of
Memᴰ-entries_of p [] n found plain = absurd (cc)
Memᴰ-entries_of p ((q, m) ∷ fs) n found plain = elim (Bool-cases (path_eq q p)) [
  | inl same ↦
      let here = (path_eq_iff q p).0 same in
      let first : m ≡ n = ground (arith, same, found) in
      rw ((bytes_eq_iff q.dir p.dir).1 (ap (λ (x : FilePath). x.dir) here))
        (Memᴰ.head (ground (arith, here, first, plain)))
  | inr other ↦ elim (Bool-cases (bytes_eq q.dir p.dir)) [
    | inl sibling ↦ rw sibling (
        Memᴰ.tail (
          Memᴰ-without (plain_entry p) q.base (entries_of p.dir fs)
            (Memᴰ-entries_of p fs n (rw other at found) plain) (other_base p q other sibling)))
    | inr apart ↦ rw apart (Memᴰ-entries_of p fs n (rw other at found) plain)
  ]
]

-- A listed entry says truly whether the file of its name is a directory.
abbrev pub IsListed : Bytes → FileMap → DirEntry → Type 0
IsListed dir fs e = (n : Node) → find (named_in dir e) fs ≡ some n → n.is_dir ≡ e.is_dir

-- What is found at a path, by whether the first file of the map stands there.
find_first :
    (p q : FilePath) (k n : Node) (fs : FileMap)
    → path_eq q p ≡ true
    → find p ((q, k) ∷ fs) ≡ some n
    → k ≡ n
unfolding find
find_first p q k n fs same found = ground (arith, same, found)

find_later :
    (p q : FilePath) (k n : Node) (fs : FileMap)
    → path_eq q p ≡ false
    → find p ((q, k) ∷ fs) ≡ some n
    → find p fs ≡ some n
unfolding find
find_later p q k n fs other found = ground (arith, other, found)

IsListed-first :
    (dir : Bytes) (q : FilePath) (k : Node) (fs : FileMap) (e : DirEntry)
    → bytes_eq q.dir dir ≡ true
    → e ≡ record { name = q.base; is_dir = k.is_dir }
    → IsListed dir ((q, k) ∷ fs) e
unfolding path_eq
IsListed-first dir q k fs e sibling same n found =
    let named : bytes_eq q.base e.name ≡ true =
      (bytes_eq_iff q.base e.name).1 (sym (ap (λ (d : DirEntry). d.name) same)) in
    let here : k ≡ n =
      find_first (named_in dir e) q k n fs (ground (arith, sibling, named)) found in
    sym (ap (λ (m : Node). m.is_dir) here) ∙ sym (ap (λ (d : DirEntry). d.is_dir) same)

IsListed-later :
    (dir : Bytes) (q : FilePath) (k : Node) (fs : FileMap) (e : DirEntry)
    → (bytes_eq q.dir dir ≡ false) ⊎ (bytes_eq e.name q.base ≡ false)
    → IsListed dir fs e
    → IsListed dir ((q, k) ∷ fs) e
unfolding path_eq
IsListed-later dir q k fs e other listed n found =
    listed n (find_later (named_in dir e) q k n fs (apart other) found)
  where
    apart :
        (bytes_eq q.dir dir ≡ false) ⊎ (bytes_eq e.name q.base ≡ false)
        → path_eq q (named_in dir e) ≡ false
    apart (inl elsewhere) = ground (arith, elsewhere)
    apart (inr named) =
        ground (arith, named, bytes_eq_iff q.base e.name, bytes_eq_iff e.name q.base)

pub entries_of-IsListed :
    (dir : Bytes) (fs : FileMap) (e : DirEntry) → Memᴰ e (entries_of dir fs) → IsListed dir fs e
unfolding entries_of
entries_of-IsListed dir [] e m = elim m [ ]
entries_of-IsListed dir ((q, k) ∷ fs) e m = elim (Bool-cases (bytes_eq q.dir dir)) [
  | inr apart ↦
      IsListed-later dir q k fs e (inl apart) (entries_of-IsListed dir fs e (rw apart at m))
  | inl sibling ↦ behind sibling (entries_of-IsListed dir fs e) (rw sibling at m)
]
  where
    behind :
        bytes_eq q.dir dir ≡ true
        → (Memᴰ e (entries_of dir fs) → IsListed dir fs e)
        → Memᴰ e (record { name = q.base; is_dir = k.is_dir } ∷ without q.base (entries_of dir fs))
        → IsListed dir ((q, k) ∷ fs) e
    behind sibling rest (Memᴰ.head same) = IsListed-first dir q k fs e sibling same
    behind sibling rest (Memᴰ.tail m') =
        let (there, other) = Memᴰ-of-without e q.base (entries_of dir fs) m' in
        IsListed-later dir q k fs e (inr other) (rest there)
