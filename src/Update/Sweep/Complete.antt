-- ===== src/Update/Sweep/Complete.antt =====
-- What sweepTemps of update.go removes when no call fails: every file that it may take for an
-- abandoned download.
use mathlib.Core.List.{Memᴰ}
use winsvr.Base.{
  refl, ℕ, ◌+◌, ◌≤◌, ◌≡◌, sym, ap, subst, ◌∙◌, ◌↔◌, inl, inr, false, none, some, List, [], ◌∷◌,
  arith,
}
use winsvr.Base.Int.{sub_ℕ}
use winsvr.Base.Bytes.{Bytes}
use winsvr.Go.Error.{ok}
use winsvr.Go.World.{Env, World, FilePath, Node, Op, next}
use winsvr.Go.Files.{FileMap, find}
use winsvr.Go.Os.{DirEntry, entries_of, os_stat, os_remove, os_read_dir, now, syscall, existing}
use winsvr.Go.Effects.{find-os_remove_self}
use winsvr.Update.Config.{Updater, stale_temp_age}
use winsvr.Update.Sweep.{
  beside, stays, remove_temp, sweep_entry, sweep_entries, sweep_temps, sweep_listed,
}
use winsvr.Update.Sweep.Listing.{plain_entry, Memᴰ-entries_of, entries_of-IsListed}
use winsvr.Update.Sweep.Safety.{
  AreListed, AreListed-tail, IsAbandoned, Swept, files-log_removed, Swept-sweep_entry,
  Swept-sweep_entries, sweep-only-abandoned,
}

-- No call of a sweep fails.
pub record IsFaultless (env : Env) : Type 0 where
  pub lists : (t : ℕ) → env.fault t Op.op_read_dir ≡ none
  pub stats : (t : ℕ) → env.fault t Op.op_stat ≡ none
  pub removes : (t : ℕ) → env.fault t Op.op_remove ≡ none

module _ (env : Env) (u : Updater) where
  gone-Swept :
      (t : ℕ) (a b : FileMap) (p : FilePath)
      → Swept env u t a b p
      → find p a ≡ none
      → find p b ≡ none
  gone-Swept t a b p (inl same) gone = same ∙ gone
  gone-Swept t a b p (inr (_, after)) gone = after

  module _ (fine : IsFaultless env) where
    stat_there :
        (p : FilePath) (w : World) (n : Node) → find p w.files ≡ some n → (os_stat env p w).0 ≡ ok n
    unfolding os_stat syscall existing next
    stat_there p w n found = ground (arith, fine.stats w.tick, found)

    old-stays :
        (t : ℕ) (n : Node)
        → n.mod_time + stale_temp_age ≤ t
        → stays env u (sub_ℕ t stale_temp_age) (ok n) ≡ false
    unfolding stays
    old-stays t n old = ground arith

    remove_temp_gone :
        (name : Bytes) (w : World)
        → find (beside env u name) (remove_temp env u name w).files ≡ none
    unfolding remove_temp
    remove_temp_gone name w = elim (find-os_remove_self env (beside env u name) w) [
      | inl gone ↦ ground (
        arith,
        gone,
        files-log_removed env u name (os_remove env (beside env u name) w).0
            (os_remove env (beside env u name) w).1,
      )
      | inr (e, bad, _) ↦ absurd (cc (bad, fine.removes w.tick))
    ]

    sweep_entry_takes :
        (t : ℕ) (p : FilePath) (w : World)
        → IsAbandoned env u t w.files p
        → find p (sweep_entry env u (sub_ℕ t stale_temp_age) (plain_entry p) w).files ≡ none
    unfolding sweep_entry
    sweep_entry_takes t p w (dir, named, (n, found, plain, old)) =
        let q = beside env u p.base in
        let same : q ≡ p = ap (λ d. record { dir = d; base = p.base }) (sym dir) in
        let there : (os_stat env q w).0 ≡ ok n =
          stat_there q w n (subst (λ x. find x w.files ≡ some n) (sym same) found) in
        ground (
          arith,
          named,
          there,
          old-stays t n old,
          subst (λ x. find x (remove_temp env u p.base (os_stat env q w).1).files ≡ none) same
              (remove_temp_gone p.base (os_stat env q w).1),
        )

    sweep_entries_take :
        (t : ℕ) (p : FilePath) (es : List DirEntry) (w : World)
        → AreListed env u w.files es
        → Memᴰ (plain_entry p) es
        → IsAbandoned env u t w.files p
        → find p (sweep_entries env u (sub_ℕ t stale_temp_age) es w).files ≡ none
    unfolding sweep_entries
    sweep_entries_take t p [] w listed m old = elim m [ ]
    sweep_entries_take t p (e ∷ es) w listed (Memᴰ.head same) old =
        let w' = sweep_entry env u (sub_ℕ t stale_temp_age) e w in
        gone-Swept t w'.files _ p
          (Swept-sweep_entries env u t es w' p (AreListed-tail env u t e es w listed))
          (subst (λ x. find p (sweep_entry env u (sub_ℕ t stale_temp_age) x w).files ≡ none) same
            (sweep_entry_takes t p w old))
    sweep_entries_take t p (e ∷ es) w listed (Memᴰ.tail m) (dir, named, (n, found, plain, old)) =
        let w' = sweep_entry env u (sub_ℕ t stale_temp_age) e w in
        elim (Swept-sweep_entry env u t e w p (listed e (Memᴰ.head refl))) [
          | inl same ↦
              sweep_entries_take t p es w' (AreListed-tail env u t e es w listed) m
                (dir, named, (n, same ∙ found, plain, old))
          | inr (_, gone) ↦
              gone-Swept t w'.files _ p
                (Swept-sweep_entries env u t es w' p (AreListed-tail env u t e es w listed)) gone
        ]

    sweep_takes :
        (w : World) (p : FilePath) (n : Node)
        → find p w.files ≡ some n
        → n.is_dir ≡ false
        → IsAbandoned env u (env.now (w.tick + 1)) w.files p
        → find p (sweep_temps env u w).files ≡ none
    unfolding sweep_temps sweep_listed os_read_dir syscall now next
    sweep_takes w p n found plain (dir, named, old) = ground (
      arith,
      fine.lists w.tick,
      sweep_entries_take (env.now (w.tick + 1)) p (entries_of u.path.dir w.files) (next (next w))
          (λ e. entries_of-IsListed u.path.dir w.files e)
          (subst (λ d. Memᴰ (plain_entry p) (entries_of d w.files)) dir
            (Memᴰ-entries_of p w.files n found plain))
          (dir, named, old),
    )

    -- When no listing, no Stat and no Remove fails, a sweep removes, of the files that are there and are
    -- not directories, exactly those of the payload's directory with a download's name and an age, at
    -- the sweep's own time, of at least staleTempAge.
    pub sweep_exact :
        (w : World) (p : FilePath) (n : Node)
        → find p w.files ≡ some n
        → n.is_dir ≡ false
        → (find p (sweep_temps env u w).files ≡ none)
          ↔ IsAbandoned env u (env.now (w.tick + 1)) w.files p
    sweep_exact w p n found plain = (
      λ gone. elim (sweep-only-abandoned env u w p) [
        | inl same ↦ absurd (cc (same, found, gone))
        | inr (abandoned, _) ↦ abandoned
      ],
      sweep_takes w p n found plain,
    )
