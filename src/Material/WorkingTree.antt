-- ===== src/Material/WorkingTree.antt =====
-- What verified material of a working tree in governance_context.py stands for.
use subagent_governance.Base.{ℕ, Text, none, true, List, [], ◌∷◌, ◌≡◌, sym, arith, ok, Error}
use subagent_governance.Contract.{DeclaredPath, VerifiedPath}
use subagent_governance.Material.Outside.{
  World, call, require, remaining_time, run-eq-ok, require-eq-ok,
}
use subagent_governance.Material.Files.{is_regular, file_digest}
use subagent_governance.Material.Unchanged.{IsUnchanged, file_digest-IsUnchanged}
use subagent_governance.Material.{verify_candidate, verify_file, verify_files}

module _ (world : World) (root : Text) where
  -- The entry of a declared path: the path led to a file inside the workspace, and the entry has the
  -- digest of the file as it stood.
  pub record IsVerified (item : DeclaredPath) (v : VerifiedPath) : Type 0 where
    pub candidate : Text
    pub moment : ℕ
    pub path : v.path ≡ item.path
    pub kind : v.kind ≡ item.kind
    pub resolved : candidate ≡ world.resolve moment (world.child root item.path)
    pub inside : world.is_inside root candidate ≡ true
    pub unchanged : IsUnchanged world candidate none v.digest

  -- One entry for each declared path, in order.
  pub data AreVerified : List DeclaredPath → List VerifiedPath → Type 0 where
    done : AreVerified [] []
    also :
        {item : DeclaredPath} {items : List DeclaredPath} {v : VerifiedPath}
        {vs : List VerifiedPath}
        → IsVerified item v
        → AreVerified items vs
        → AreVerified (item ∷ items) (v ∷ vs)

  verify_candidate-IsVerified :
      (item : DeclaredPath) (candidate : Text) (moment n n' : ℕ) (v : VerifiedPath)
      → candidate ≡ world.resolve moment (world.child root item.path)
      → verify_candidate world root item candidate n ≡ (ok v, n')
      → IsVerified item v
  unfolding verify_candidate
  verify_candidate-IsVerified item candidate moment n n' v resolved h =
      let (u, n₁, inside, h₁) =
        run-eq-ok (require (world.is_inside root candidate) Error.context_verification) _ n n' v
          h in
      let (metadata, n₂, _, h₂) = run-eq-ok (call (λ m. world.stat m candidate)) _ n₁ n' v h₁ in
      let (w, n₃, _, h₃) =
        run-eq-ok (require (is_regular metadata.kind) Error.context_conflict) _ n₂ n' v h₂ in
      let (d, n₄, read, last) = run-eq-ok (file_digest world candidate none) _ n₃ n' v h₃ in
      let same : d ≡ v.digest = ground (arith, last) in
      record {
        candidate = candidate;
        moment = moment;
        path = ground (arith, last);
        kind = ground (arith, last);
        resolved = resolved;
        inside = require-eq-ok (world.is_inside root candidate) _ n n₁ u inside;
        unchanged = rw (sym same) (file_digest-IsUnchanged world candidate none n₃ n₄ d read);
      }

  verify_file-IsVerified :
      (item : DeclaredPath) (n n' : ℕ) (v : VerifiedPath)
      → verify_file world root item n ≡ (ok v, n')
      → IsVerified item v
  unfolding verify_file
  verify_file-IsVerified item n n' v h =
      let (u, n₁, _, h₁) = run-eq-ok remaining_time _ n n' v h in
      let (candidate, n₂, resolved, h₂) =
        run-eq-ok (call (λ m. ok (world.resolve m (world.child root item.path))))
          (verify_candidate world root item) n₁ n' v h₁ in
      verify_candidate-IsVerified item candidate n₁ n₂ n' v (ground (arith, resolved)) h₂

  -- The entries that a verification of a working tree returns are those of the declared paths, in
  -- order: each path led to a file inside the workspace, and its digest is that of a regular file that
  -- did not change while it was read.
  pub verify_files-AreVerified :
      (items : List DeclaredPath) (n n' : ℕ) (vs : List VerifiedPath)
      → verify_files world root items n ≡ (ok vs, n')
      → AreVerified items vs
  unfolding verify_files
  verify_files-AreVerified [] n n' vs h =
      let same : [] ≡ vs = ground (arith, h) in rw (sym same) AreVerified.done
  verify_files-AreVerified (item ∷ items) n n' vs h =
      let (v, n₁, one, h₁) = run-eq-ok (verify_file world root item) _ n n' vs h in
      let (others, n₂, rest, last) = run-eq-ok (verify_files world root items) _ n₁ n' vs h₁ in
      let same : v ∷ others ≡ vs = ground (arith, last) in
      rw (sym same) (
        AreVerified.also (verify_file-IsVerified item n n₁ v one)
          (verify_files-AreVerified items n₁ n₂ others rest))
