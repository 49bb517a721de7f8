-- ===== src/Update/Sweep/Safety.antt =====
-- What sweepTemps of update.go removes: files that it may take for abandoned downloads, and no other.
use mathlib.Core.Path.{subst₂}
use mathlib.Core.List.{Memᴰ}
use winsvr.Base.{
  ℕ, ◌+◌, ◌≤◌, ◌≡◌, refl, sym, ◌∙◌, ◌⊎◌, inl, inr, true, false, none, some, List, [], ◌∷◌, arith,
  Bool-cases, Option-cases, ◌||◌, not, subst,
}
use winsvr.Base.Int.{sub_ℕ}
use winsvr.Base.Bytes.{Bytes}
use winsvr.Go.Error.{Result, ok, err}
use winsvr.Go.World.{Env, World, FilePath, Node, path_eq, path_eq_iff, next, Op}
use winsvr.Go.Files.{FileMap, find}
use winsvr.Go.Os.{DirEntry, os_stat, os_remove, log_record, os_read_dir, now, syscall, entries_of}
use winsvr.Update.Sweep.Listing.{IsListed, entries_of-IsListed}
use winsvr.Go.Effects.{
  files-os_stat, os_stat_ok, files-os_read_dir, tick-os_read_dir, find-os_remove_ne,
  find-os_remove_self,
}
use winsvr.Update.Config.{Updater, temp_prefix, stale_temp_age}
use winsvr.Update.Sweep.{
  is_generated_temp, beside, stays, log_removed, remove_temp, sweep_entry, sweep_entries,
  sweep_temps, sweep_listed,
}

module _ (env : Env) (u : Updater) where
  -- A file, and no directory, that a sweep at time `t` may take for an abandoned download.
  abbrev pub IsAbandoned : ℕ → FileMap → FilePath → Type 0
  IsAbandoned t fs p =
      (p.dir ≡ u.path.dir)
      × (is_generated_temp p.base (temp_prefix u) ≡ true)
      × ((n : Node) × (find p fs ≡ some n) × (n.is_dir ≡ false) × (n.mod_time + stale_temp_age ≤ t))

  -- A file is as it was, or was abandoned and is gone.
  abbrev pub Swept : ℕ → FileMap → FileMap → FilePath → Type 0
  Swept t fs fs' p = (find p fs' ≡ find p fs) ⊎ (IsAbandoned t fs p × (find p fs' ≡ none))

  pub files-log_removed :
      (name : Bytes) (r : Result (Unit {0})) (w : World)
      → (log_removed env u name r w).files ≡ w.files
  unfolding log_removed log_record
  files-log_removed name r w = ground arith

  find-remove_temp :
      (name : Bytes) (w : World) (p : FilePath)
      → (find p (remove_temp env u name w).files ≡ find p w.files)
        ⊎ ((beside env u name ≡ p) × (find p (remove_temp env u name w).files ≡ none))
  unfolding remove_temp
  find-remove_temp name w p = elim (Bool-cases (path_eq (beside env u name) p)) [
    | inl same ↦
        let here = (path_eq_iff (beside env u name) p).0 same in
        ground (
          arith,
          here,
          find-os_remove_self env (beside env u name) w,
          files-log_removed name (os_remove env (beside env u name) w).0
              (os_remove env (beside env u name) w).1,
        )
    | inr other ↦ ground (
      arith,
      find-os_remove_ne env (beside env u name) p w other,
      files-log_removed name (os_remove env (beside env u name) w).0
          (os_remove env (beside env u name) w).1,
    )
  ]

  -- The test on the time of a file that does not stay.
  old_enough :
      (t : ℕ) (r : Result Node)
      → stays env u (sub_ℕ t stale_temp_age) r ≡ false
      → (n : Node) × (r ≡ ok n) × (n.mod_time + stale_temp_age ≤ t)
  unfolding stays
  old_enough t (ok n) h = (n, refl, ground arith)
  old_enough t (err e) h = absurd (cc)

  Swept-trans :
      (t : ℕ) (a b c : FileMap) (p : FilePath) → Swept t a b p → Swept t b c p → Swept t a c p
  Swept-trans t a b c p (inl e) (inl f) = inl (f ∙ e)
  Swept-trans t a b c p (inl e) (inr ((d, g, (n, there, plain, old)), gone)) =
      inr ((d, g, (n, sym e ∙ there, plain, old)), gone)
  Swept-trans t a b c p (inr (ab, gone)) (inl f) = inr (ab, f ∙ gone)
  Swept-trans t a b c p (inr (ab, gone)) (inr (_, gone')) = inr (ab, gone')

  pub Swept-sweep_entry :
      (t : ℕ) (e : DirEntry) (w : World) (p : FilePath)
      → IsListed u.path.dir w.files e
      → Swept t w.files (sweep_entry env u (sub_ℕ t stale_temp_age) e w).files p
  unfolding sweep_entry
  Swept-sweep_entry t e w p listed =
      elim (Bool-cases (e.is_dir || not (is_generated_temp e.name (temp_prefix u)))) [
        | inl skipped ↦ rw skipped (inl refl)
        | inr named ↦ elim (Bool-cases (stays env u (sub_ℕ t stale_temp_age) found)) [
          | inl kept ↦ rw (named, kept) (inl (rw files-os_stat))
          | inr stale ↦ rw (named, stale) (removed (old_enough t found stale) named)
        ]
      ]
    where
      found : Result Node
      found = (os_stat env (beside env u e.name) w).0

      there : (n : Node) → found ≡ ok n → find (beside env u e.name) w.files ≡ some n
      there n is_there = os_stat_ok env (beside env u e.name) w n is_there

      removed :
          (n : Node) × (found ≡ ok n) × (n.mod_time + stale_temp_age ≤ t)
          → (e.is_dir || not (is_generated_temp e.name (temp_prefix u))) ≡ false
          → Swept t w.files
              (remove_temp env u e.name (os_stat env (beside env u e.name) w).1).files
              p
      removed (n, is_there, old) named =
          elim (find-remove_temp e.name (os_stat env (beside env u e.name) w).1 p) [
            | inl same ↦ inl (same ∙ rw files-os_stat)
            | inr (here, gone) ↦ inr (
              rw (← here) (
                refl,
                ground arith,
                (n, there n is_there, listed n (there n is_there) ∙ ground (arith, named), old),
              ),
              gone,
            )
          ]

  -- A listing stays true while files are removed.
  pub IsListed-Swept :
      (t : ℕ) (a b : FileMap) (e : DirEntry)
      → Swept t a b (beside env u e.name)
      → IsListed u.path.dir a e
      → IsListed u.path.dir b e
  IsListed-Swept t a b e (inl same) listed n found = listed n (sym same ∙ found)
  IsListed-Swept t a b e (inr (_, gone)) listed n found = absurd (cc (gone, found))

  -- Every entry of a listing is true.
  abbrev pub AreListed : FileMap → List DirEntry → Type 0
  AreListed fs es = (e : DirEntry) → Memᴰ e es → IsListed u.path.dir fs e

  pub AreListed-tail :
      (t : ℕ) (e : DirEntry) (es : List DirEntry) (w : World)
      → AreListed w.files (e ∷ es)
      → AreListed (sweep_entry env u (sub_ℕ t stale_temp_age) e w).files es
  AreListed-tail t e es w listed x m =
      IsListed-Swept t w.files _ x
        (Swept-sweep_entry t e w (beside env u x.name) (listed e (Memᴰ.head refl)))
        (listed x (Memᴰ.tail m))

  -- The entries are swept one after another.
  pub Swept-sweep_entries :
      (t : ℕ) (es : List DirEntry) (w : World) (p : FilePath)
      → AreListed w.files es
      → Swept t w.files (sweep_entries env u (sub_ℕ t stale_temp_age) es w).files p
  unfolding sweep_entries
  Swept-sweep_entries t [] w p listed = inl refl
  Swept-sweep_entries t (e ∷ es) w p listed =
      Swept-trans t _ _ _ p (Swept-sweep_entry t e w p (listed e (Memᴰ.head refl)))
        (Swept-sweep_entries t es _ p (AreListed-tail t e es w listed))

  Swept-sweep_listed :
      (r : Result (List DirEntry)) (w : World) (p : FilePath)
      → ((es : List DirEntry) → r ≡ ok es → AreListed w.files es)
      → Swept (env.now w.tick) w.files (sweep_listed env u r w).files p
  unfolding sweep_listed now next
  Swept-sweep_listed (err e) w p listed = inl refl
  Swept-sweep_listed (ok es) w p listed =
      Swept-sweep_entries (env.now w.tick) es _ p (listed es refl)

  listed-os_read_dir :
      (w : World) (es : List DirEntry)
      → (os_read_dir env u.path.dir w).0 ≡ ok es
      → AreListed (os_read_dir env u.path.dir w).1.files es
  unfolding os_read_dir syscall next
  listed-os_read_dir w es h = elim (Option-cases (env.fault w.tick Op.op_read_dir)) [
    | inr (e, bad) ↦ absurd (ground (arith, bad))
    | inl fine ↦ λ e m.
        let same : entries_of u.path.dir w.files ≡ es = ground (arith, fine, h) in
        subst (λ fs. IsListed u.path.dir fs e) (sym (files-os_read_dir env u.path.dir w))
          (entries_of-IsListed u.path.dir w.files e (subst (Memᴰ e) (sym same) m))
  ]

  -- After a sweep every file is as it was, or it is gone and was a file, not a directory, of the
  -- payload's directory with a download's name and an age, at the sweep's own time, of at least
  -- staleTempAge.
  pub sweep-only-abandoned :
      (w : World) (p : FilePath)
      → Swept (env.now (w.tick + 1)) w.files (sweep_temps env u w).files p
  unfolding sweep_temps
  sweep-only-abandoned w p =
      subst₂ (λ t fs. Swept (env.now t) fs (sweep_temps env u w).files p)
        (tick-os_read_dir env u.path.dir w) (files-os_read_dir env u.path.dir w)
        (Swept-sweep_listed _ (os_read_dir env u.path.dir w).1 p (listed-os_read_dir w))
