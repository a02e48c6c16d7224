-- ===== src/Material/Unchanged.antt =====
-- A digest of governance_context.py is that of a regular file that did not change while it was read.
use subagent_governance.Base.{
  ℕ, Text, Option, true, ◌&&◌, ◌||◌, not, ◌≡◌, refl, sym, ap, arith, Result, ok, err, Error,
  &&-eq-true,
}
use subagent_governance.Material.Outside.{
  Metadata, Handle, Algorithm, World, call, attempt, require, remaining_time, run-eq-ok,
  require-eq-ok,
}
use subagent_governance.Material.Files.{
  is_regular, is_link, same_identity, read_chunks, digest_of, finish_reading, read_handle,
  look_again, read_file, recheck, recheck_failed, reading_failed, file_digest,
}

module _ (world : World) (path : Text) (algorithm : Option Algorithm) where
  -- The file was opened at one moment and looked at again at a later one; it was regular both times,
  -- it was the same file of the same size and times, and the digest is that of all that it held.
  pub record IsUnchanged (digest : Text) : Type 0 where
    pub opened : ℕ
    pub looked : ℕ
    pub handle : Handle
    pub before : Metadata
    pub after : Metadata
    pub current : Metadata
    pub opening : world.open_file opened path ≡ ok handle
    pub first : handle.before ≡ ok before
    pub second : handle.after ≡ ok after
    pub looking : world.stat looked path ≡ ok current
    pub regular_before : is_regular before.kind ≡ true
    pub regular_current : is_regular current.kind ≡ true
    pub same_file : same_identity true before after ≡ true
    pub same_path : same_identity (not world.is_windows) after current ≡ true
    pub hashed : digest ≡ digest_of world algorithm before.size handle.chunks

  -- What the part behind the reads has found.
  record Finished (handle : Handle) (before : Metadata) (digest : Text) : Type 0 where
    looked : ℕ
    after : Metadata
    current : Metadata
    second : handle.after ≡ ok after
    looking : world.stat looked path ≡ ok current
    regular : is_regular current.kind ≡ true
    same_file : same_identity true before after ≡ true
    same_path : same_identity (not world.is_windows) after current ≡ true
    hashed : digest ≡ digest_of world algorithm before.size handle.chunks

  finish-Finished :
      (handle : Handle) (before : Metadata) (n n' : ℕ) (d : Text)
      → finish_reading world path algorithm handle before n ≡ (ok d, n')
      → Finished handle before d
  unfolding finish_reading
  finish-Finished handle before n n' d h =
      let (after, n₁, second, h₁) = run-eq-ok (call (λ m. handle.after)) _ n n' d h in
      let (current, n₂, looking, h₂) = run-eq-ok (call (λ m. world.stat m path)) _ n₁ n' d h₁ in
      let (u, n₃, still, h₃) =
        run-eq-ok (require (is_regular current.kind) Error.context_conflict) _ n₂ n' d h₂ in
      let (v, n₄, kept, last) =
        run-eq-ok
          (require
            (same_identity true before after && same_identity (not world.is_windows) after current)
            Error.context_verification)
          _ n₃ n' d h₃ in
      let (same_file, same_path) =
        &&-eq-true (same_identity true before after)
          (same_identity (not world.is_windows) after current) (require-eq-ok _ _ n₃ n₄ v kept) in
      record {
        looked = n₁;
        after = after;
        current = current;
        second = ap (λ r. r.0) second;
        looking = ap (λ r. r.0) looking;
        regular = require-eq-ok _ _ n₂ n₃ u still;
        same_file = same_file;
        same_path = same_path;
        hashed = ground (arith, last);
      }

  read_handle-IsUnchanged :
      (handle : Handle) (opened n n' : ℕ) (d : Text)
      → world.open_file opened path ≡ ok handle
      → read_handle world path algorithm handle n ≡ (ok d, n')
      → IsUnchanged d
  unfolding read_handle
  read_handle-IsUnchanged handle opened n n' d opening h =
      let (before, n₁, first, h₁) = run-eq-ok (call (λ m. handle.before)) _ n n' d h in
      let (u, n₂, reg, h₂) =
        run-eq-ok (require (is_regular before.kind) Error.context_conflict) _ n₁ n' d h₁ in
      let (v, n₃, reading, h₃) = run-eq-ok (read_chunks handle.ending handle.chunks) _ n₂ n' d h₂ in
      let f = finish-Finished handle before n₃ n' d h₃ in
      record {
        opened = opened;
        looked = f.looked;
        handle = handle;
        before = before;
        after = f.after;
        current = f.current;
        opening = opening;
        first = ap (λ r. r.0) first;
        second = f.second;
        looking = f.looking;
        regular_before = require-eq-ok _ _ n₁ n₂ u reg;
        regular_current = f.regular;
        same_file = f.same_file;
        same_path = f.same_path;
        hashed = f.hashed;
      }

  read_file-IsUnchanged :
      (n n' : ℕ) (d : Text) → read_file world path algorithm n ≡ (ok d, n') → IsUnchanged d
  unfolding read_file
  read_file-IsUnchanged n n' d h =
      let (handle, n₁, opening, h₁) =
        run-eq-ok (call (λ m. world.open_file m path)) (read_handle world path algorithm) n n' d
          h in
      read_handle-IsUnchanged handle n n₁ n' d (ap (λ r. r.0) opening) h₁

  recheck-never : (n n' : ℕ) (d : Text) → recheck world path n ≡ (ok d, n') → ⊥
  unfolding recheck
  recheck-never n n' d h =
      let (current, n₁, _, h₁) =
        run-eq-ok (attempt (look_again world path) (recheck_failed world)) _ n n' d h in
      let (u, n₂, _, last) =
        run-eq-ok (require (is_regular current.kind || is_link current.kind) Error.context_conflict)
          _ n₁ n' d h₁ in
      absurd (ground (arith, last))

  failed-never : (e : Error) (n n' : ℕ) (d : Text) → reading_failed world path e n ≡ (ok d, n') → ⊥
  unfolding reading_failed
  failed-never Error.os_error n n' d h = recheck-never n n' d h
  failed-never e n n' d h = ground (arith, h)

  tried-IsUnchanged :
      (r : Result Text × ℕ) (n n' : ℕ) (d : Text)
      → read_file world path algorithm n ≡ r
      → attempt (read_file world path algorithm) (reading_failed world path) n ≡ (ok d, n')
      → IsUnchanged d
  tried-IsUnchanged (ok c, m) n n' d e h = read_file-IsUnchanged n m d (ground (arith, e, h))
  tried-IsUnchanged (err c, m) n n' d e h = absurd (failed-never c m n' d (ground (arith, e, h)))

  -- A digest that `_file_digest` returns is that of a file that was regular when it was opened and when
  -- it had been read, with the same identity, size and times, and that `path` named then.
  pub file_digest-IsUnchanged :
      (n n' : ℕ) (d : Text) → file_digest world path algorithm n ≡ (ok d, n') → IsUnchanged d
  unfolding file_digest
  file_digest-IsUnchanged n n' d h =
      let (u, n₁, _, h₁) = run-eq-ok remaining_time _ n n' d h in
      let (c, n₂, tried, h₂) =
        run-eq-ok (attempt (read_file world path algorithm) (reading_failed world path)) _ n₁ n' d
          h₁ in
      let (v, n₃, _, last) = run-eq-ok remaining_time _ n₂ n' d h₂ in
      let same : c ≡ d = ground (arith, last) in
      rw (sym same) (tried-IsUnchanged (read_file world path algorithm n₁) n₁ n₂ c refl tried)
