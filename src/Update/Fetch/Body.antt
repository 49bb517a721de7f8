-- ===== src/Update/Fetch/Body.antt =====
-- What `fetch` of update.go does with a body: copy it under the limit, refuse it, or describe it.
use winsvr.Base.{
  ℕ, min, subst, ◌≤◌, ◌<◌, ◌≡◌, refl, ◌∙◌, ◌⊎◌, inl, inr, false, Option, none, some, arith,
  Option-cases, length, take, take_all, length-take,
}
use winsvr.Base.Int.{ℤ, pos, ◌≤ℤ◌, pos_part, max_int64}
use winsvr.Base.Bytes.{Bytes}
use winsvr.Go.Error.{Error, ok, err}
use winsvr.Go.World.{Env, World, FilePath, Node, Response, path_eq, next, Op}
use winsvr.Go.Exec.{◌>>=◌}
use winsvr.Go.Files.{find, store, find-store, path_eq_refl}
use winsvr.Go.Os.{copy_limited, close_file, os_open, read_all, syscall, file}
use winsvr.Go.Effects.{find-os_remove_ne, find-os_remove_self, Result-cases}
use winsvr.Update.Config.{Updater, PayloadInfo, max_bytes}
use winsvr.Update.Checksum.{crc64, file_crc64}
use winsvr.Update.Fetch.{
  read_limit, copy_error, refuse_copy, save_body, describe, finish_copy, fill_temp, discard,
}

module _ (env : Env) where
  pub files-file_crc64 : (p : FilePath) (w : World) → (file_crc64 env p w).1.files ≡ w.files
  unfolding file_crc64 os_open read_all syscall next ◌>>=◌
  files-file_crc64 p w = ground arith

  pub file_crc64_ok :
      (p : FilePath) (w : World) (sum : ℕ)
      → (file_crc64 env p w).0 ≡ ok sum
      → (n : Node) × (find p w.files ≡ some n) × (sum ≡ crc64 n.content)
  unfolding file_crc64 os_open read_all syscall next ◌>>=◌
  file_crc64_ok p w sum h = ground arith

-- A body that was read up to the limit, and not past it, is no longer than the limit.
read_limit_short :
    (limit : ℤ) (total read : ℕ)
    → pos_part limit ≤ max_int64
    → total < max_int64
    → read ≡ min (pos_part (read_limit limit)) total
    → 0 < read
    → pos read ≤ℤ limit
    → total < pos_part (read_limit limit)
unfolding read_limit
read_limit_short limit total read fits finite e h under = ground arith

module _ (env : Env) (u : Updater) (tmp : FilePath) (resp : Response) where
  -- The part of a body that the copy reads.
  abbrev pub part : Bytes
  part = take (pos_part (read_limit (max_bytes u))) resp.body

  find-save_body_ne :
      (q : FilePath) (w : World)
      → path_eq tmp q ≡ false
      → find q (save_body env u tmp resp w).1.files ≡ find q w.files
  unfolding save_body copy_limited close_file next
  find-save_body_ne q w h = ground (arith, find-store tmp q (file part (env.now w.tick)) w.files)

  -- What is known of a body that was not refused.
  abbrev pub Accepted : Type 0
  Accepted =
      (0 < length part)
      × (pos (length part) ≤ℤ max_bytes u)
      × ((pos_part (read_limit (max_bytes u)) ≤ length resp.body) ⊎ (resp.broken ≡ none))

  save_body_ok :
      (w : World)
      → (save_body env u tmp resp w).0 ≡ none
      → ((save_body env u tmp resp w).1.files ≡ store tmp (file part (env.now w.tick)) w.files)
        × Accepted
  unfolding save_body copy_limited close_file copy_error refuse_copy next
  save_body_ok w h = ground arith

  find-finish_copy_err :
      (q : FilePath) (stop : Option Error) (w : World)
      → path_eq tmp q ≡ false
      → find q (finish_copy env u tmp resp stop w).1.files ≡ find q w.files
  unfolding finish_copy describe discard
  find-finish_copy_err q none w h = elim (Result-cases (file_crc64 env tmp w).0) [
    | inl (e, bad) ↦
        rw (bad, describe)
          (find-os_remove_ne env tmp q (file_crc64 env tmp w).1 h ∙ rw files-file_crc64)
    | inr (sum, fine) ↦ rw (fine, describe) (rw files-file_crc64)
  ]
  find-finish_copy_err q (some e) w h = find-os_remove_ne env tmp q w h

  -- Only the temporary file changes.
  pub find-fill_temp_ne :
      (q : FilePath) (w : World)
      → path_eq tmp q ≡ false
      → find q (fill_temp env u resp tmp w).1.files ≡ find q w.files
  unfolding fill_temp
  find-fill_temp_ne q w h = find-finish_copy_err q _ _ h ∙ find-save_body_ne q w h

  -- On an error the temporary file is gone, unless an os.Remove failed.
  discard_self :
      (w : World)
      → (find tmp (discard env u tmp w).files ≡ none)
        ⊎ ((t : ℕ) × (e : Error) × (env.fault t Op.op_remove ≡ some e))
  unfolding discard
  discard_self w = elim (find-os_remove_self env tmp w) [
    | inl gone ↦ inl gone
    | inr (e, bad, _) ↦ inr (w.tick, e, bad)
  ]

  pub find-fill_temp_err :
      (w w' : World) (e : Error)
      → fill_temp env u resp tmp w ≡ (err e, w')
      → (find tmp w'.files ≡ none) ⊎ ((t : ℕ) × (x : Error) × (env.fault t Op.op_remove ≡ some x))
  unfolding fill_temp finish_copy describe
  find-fill_temp_err w w' e h = elim (Option-cases (save_body env u tmp resp w).0) [
    | inr (x, bad) ↦ ground (arith, bad, discard_self (save_body env u tmp resp w).1)
    | inl fine ↦
        ground (arith, fine, discard_self (file_crc64 env tmp (save_body env u tmp resp w).1).1)
  ]

  finish_copy_ok :
      (w w' : World) (p : FilePath) (got : PayloadInfo)
      → finish_copy env u tmp resp none w ≡ (ok (p, got), w')
      → (p ≡ tmp)
        × (w' ≡ (file_crc64 env tmp w).1)
        × ((n : Node) × (find tmp w.files ≡ some n)
            × (got ≡ record { etag = resp.etag; crc64 = crc64 n.content }))
  unfolding finish_copy describe
  finish_copy_ok w w' p got h = elim (Result-cases (file_crc64 env tmp w).0) [
    | inl (e, bad) ↦ absurd (ground (arith, bad))
    | inr (sum, fine) ↦
        let (n, there, same) = file_crc64_ok env tmp w sum fine in
        (ground (arith, fine), ground (arith, fine), (n, there, ground (arith, fine, same)))
  ]

  -- On success the temporary file holds the part that was read, and the result describes it.
  pub fill_temp_ok :
      (w w' : World) (p : FilePath) (got : PayloadInfo)
      → fill_temp env u resp tmp w ≡ (ok (p, got), w')
      → (p ≡ tmp)
        × (got ≡ record { etag = resp.etag; crc64 = crc64 part })
        × ((n : Node) × (find tmp w'.files ≡ some n) × (n.content ≡ part))
        × Accepted
  unfolding fill_temp
  fill_temp_ok w w' p got h = elim (Option-cases (save_body env u tmp resp w).0) [
    | inr (x, bad) ↦ absurd (
        unfold finish_copy in
        (cc (subst (λ s. finish_copy env u tmp resp s saved ≡ (ok (p, got), w')) bad h)))
    | inl fine ↦
        let (same, last, (n, there, info)) =
          finish_copy_ok saved w' p got
            (subst (λ s. finish_copy env u tmp resp s saved ≡ (ok (p, got), w')) fine h) in
        let (files, accepted) = save_body_ok w fine in
        let here : find tmp saved.files ≡ some (file part (env.now w.tick)) = ground (
          arith,
          files,
          find-store tmp tmp (file part (env.now w.tick)) w.files,
          path_eq_refl tmp,
        ) in
        (
          same,
          ground (arith, there, here, info),
          (
            file part (env.now w.tick),
            ground (arith, last, here, files-file_crc64 env tmp saved),
            refl,
          ),
          accepted,
        )
  ]
    where
      saved : World
      saved = (save_body env u tmp resp w).1

  -- An accepted body shorter than the largest int64 was read whole, and ended well.
  pub Accepted-whole :
      pos_part (max_bytes u) ≤ max_int64
      → length resp.body < max_int64
      → Accepted
      → (part ≡ resp.body) × (resp.broken ≡ none)
  unfolding read_limit
  Accepted-whole fits finite (some_bytes, under, well) = (
    take_all (pos_part (read_limit (max_bytes u))) resp.body (omega (arith, short)),
    elim well [ inl long ↦ absurd (omega (arith, short)) | inr fine ↦ fine ],
  )
    where
      short : length resp.body < pos_part (read_limit (max_bytes u))
      short =
          read_limit_short (max_bytes u) (length resp.body) (length part) fits finite
            (length-take (pos_part (read_limit (max_bytes u))) resp.body) some_bytes under
