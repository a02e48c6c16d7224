-- ===== src/Material/Candidate.antt =====
-- The file that _git_candidate of governance_context.py finds for a path of a commit.
use subagent_governance.Base.{
  ℕ, Text, split, false, Option, none, some, List, [], ◌∷◌, ◌||◌, not, if◌then◌else◌, ◌≡◌, refl,
  sym, ap, arith, Result, ok, err, Error, ◌∙◌,
}
use subagent_governance.Material.Outside.{
  Metadata, World, Timed, call, attempt, require, remaining_time, run-eq-ok, require-eq-ok,
}
use subagent_governance.Material.Files.{is_link, is_regular, is_directory}
use subagent_governance.Material.Listing.{TreeEntry, is_blob}
use subagent_governance.Material.Git.{
  walk_parts, last_of, candidate_failed, check_tree, find_candidate, git_candidate,
}

module _ (world : World) where
  -- The path below a directory.
  abbrev pub below : Text → List Text → Text
  below directory [] = directory
  below directory (part ∷ parts) = below (world.child directory part) parts

  -- No part of the path was a link when it was looked at.
  abbrev pub Unlinked : Text → List Text → Type 0
  Unlinked directory [] = Unit
  Unlinked directory (part ∷ parts) =
      ((m : ℕ) × (found : Metadata) × (world.lstat m (world.child directory part) ≡ ok found)
        × (is_link found.kind ≡ false))
      × Unlinked (world.child directory part) parts

  walk_parts-below :
      (directory : Text) (last : Option Metadata) (parts : List Text) (n n' : ℕ)
      (found : Text × Option Metadata)
      → walk_parts world directory last parts n ≡ (ok found, n')
      → (found.0 ≡ below directory parts) × Unlinked directory parts
  unfolding walk_parts
  walk_parts-below directory last [] n n' found h = (ground (arith, h), tt)
  walk_parts-below directory last (part ∷ parts) n n' found h =
      let (u, n₁, _, h₁) = run-eq-ok remaining_time _ n n' found h in
      let (metadata, n₂, e, h₂) =
        run-eq-ok (call (λ m. world.lstat m (world.child directory part))) _ n₁ n' found h₁ in
      let (v, n₃, plain, h₃) =
        run-eq-ok (require (not (is_link metadata.kind)) Error.context_verification) _ n₂ n' found
          h₂ in
      let (same, rest) =
        walk_parts-below (world.child directory part) (some metadata) parts n₃ n' found h₃ in
      let no_link = require-eq-ok (not (is_link metadata.kind)) _ n₂ n₃ v plain in
      let here = ap {B = Result Metadata} (λ r. r.0) e in
      (same, ((n₁, metadata, here, ground (arith, no_link)), rest))

  caught :
      (body : Timed Text) (r : Result Text × ℕ) (n n' : ℕ) (found : Text)
      → body n ≡ r
      → attempt body (candidate_failed world) n ≡ (ok found, n')
      → body n ≡ (ok found, n')
  unfolding candidate_failed
  caught body (ok s, m) n n' found e h = ground (arith, e, h)
  caught body (err x, m) n n' found e h = absurd (ground (arith, e, h))

  find_candidate-below :
      (root relative : Text) (entry : TreeEntry) (n n' : ℕ) (found : Text)
      → find_candidate world root relative entry n ≡ (ok found, n')
      → (found ≡ below root (split b'/' relative)) × Unlinked root (split b'/' relative)
  unfolding find_candidate
  find_candidate-below root relative entry n n' found h =
      let walk = walk_parts world root none (split b'/' relative) in
      let (end, n₁, e, h₁) = run-eq-ok walk _ n n' found h in
      let (metadata, n₂, _, h₂) = run-eq-ok (last_of world (end.1)) _ n₁ n' found h₁ in
      let kind = metadata.kind in
      let (u, n₃, _, h₃) =
        run-eq-ok (require (is_regular kind || is_directory kind) Error.context_verification) _ n₂
          n' found h₂ in
      let (v, n₄, _, h₄) =
        run-eq-ok
          (require (if is_blob entry then is_regular kind else is_directory kind)
            Error.context_conflict)
          _ n₃ n' found h₃ in
      let (w, n₅, _, h₅) = run-eq-ok (check_tree world (is_blob entry) (end.0)) _ n₄ n' found h₄ in
      let same : (end.0) ≡ found = ground (arith, h₅) in
      let (path, unlinked) = walk_parts-below root none (split b'/' relative) n n₁ end e in
      (sym same ∙ path, unlinked)

  -- The file stands at the path below the root, and no part of the path was a link.
  pub git_candidate-below :
      (root relative : Text) (entry : TreeEntry) (n n' : ℕ) (found : Text)
      → git_candidate world root relative entry n ≡ (ok found, n')
      → (found ≡ below root (split b'/' relative)) × Unlinked root (split b'/' relative)
  unfolding git_candidate
  git_candidate-below root relative entry n n' found h =
      let body = find_candidate world root relative entry in
      find_candidate-below root relative entry n n' found (caught body (body n) n n' found refl h)
