-- ===== src/Material/Commit.antt =====
-- What verified material of a Git commit in governance_context.py stands for.
use subagent_governance.Material.Head.{HasHead, check_head-HasHead, run_git-Printed}
use subagent_governance.Material.Candidate.{below, Unlinked, git_candidate-below}
use subagent_governance.Material.Verified.{AreDeclared, verify_paths-AreDeclared}
use mathlib.Core.Path.{subst}
use subagent_governance.Base.{
  ℕ, Text, codes, split, text_eq, text_eq_sound, Dict, Option, some, Bool, true, false, List, [],
  ◌∷◌, ◌++◌, leb, length, ◌≡◌, refl, sym, arith, ok, Error, suc, ap, ◌∙◌,
}
use subagent_governance.Contract.{DeclaredPath, VerifiedPath}
use subagent_governance.Material.Outside.{
  World, Algorithm, Process, call, require, remaining_time, run-eq-ok, require-eq-ok, require-same,
}
use subagent_governance.Material.Files.{file_digest}
use subagent_governance.Material.Unchanged.{IsUnchanged, file_digest-IsUnchanged}
use subagent_governance.Material.Git.{
  run_git, check_head, listing_of, status_of, check_clean, verify_entries, verify_listing,
  git_candidate, check_blob, check_entry, check_entries, verify_git, after_root,
}
use subagent_governance.Material.Listing.{
  TreeEntry, is_selected, is_plain_mode, is_blob, algorithm_of, parse_records, verify_paths,
  rstrip_newlines,
}

module _ (world : World) where
  -- An entry of the baseline that the declared paths select: a blob's file, which stands at the
  -- entry's path below the root with no link on the way, has the content that its object name says,
  -- and did not change while it was read.
  pub data IsIntact (root path : Text) (selected : Bool) (entry : TreeEntry) : Type 0 where
    other : selected ≡ false → IsIntact root path selected entry
    tree : is_blob entry ≡ false → IsIntact root path selected entry
    blob :
        Unlinked world root (split b'/' path)
        → IsUnchanged world
            (below world root (split b'/' path))
            (some (algorithm_of entry.object_id))
            entry.object_id
        → IsIntact root path selected entry

  IsUnchanged-same :
      (candidate : Text) (algorithm : Option Algorithm) (d oid : Text)
      → d ≡ oid
      → IsUnchanged world candidate algorithm d
      → IsUnchanged world candidate algorithm oid
  IsUnchanged-same candidate algorithm d oid e u = rw (sym e) u

  check_blob-IsUnchanged :
      (candidate : Text) (entry : TreeEntry) (n n' : ℕ) (u : Unit {0})
      → check_blob world true candidate entry.object_id n ≡ (ok u, n')
      → IsUnchanged world candidate (some (algorithm_of entry.object_id)) entry.object_id
  unfolding check_blob
  check_blob-IsUnchanged candidate entry n n' u h =
      let algorithm = some (algorithm_of entry.object_id) in
      let (d, n₁, read, h₁) = run-eq-ok (file_digest world candidate algorithm) _ n n' u h in
      let test = text_eq d entry.object_id in
      let same =
        text_eq_sound d entry.object_id (require-eq-ok test Error.context_conflict n₁ n' u h₁) in
      IsUnchanged-same candidate algorithm d entry.object_id same
        (file_digest-IsUnchanged world candidate algorithm n n₁ d read)

  check_blob-IsIntact :
      (is : Bool) (root path candidate : Text) (entry : TreeEntry) (n n' : ℕ) (u : Unit {0})
      → is_blob entry ≡ is
      → candidate ≡ below world root (split b'/' path)
      → Unlinked world root (split b'/' path)
      → check_blob world is candidate entry.object_id n ≡ (ok u, n')
      → IsIntact root path true entry
  check_blob-IsIntact false root path candidate entry n n' u e at plain h = IsIntact.tree e
  check_blob-IsIntact true root path candidate entry n n' u e at plain h = IsIntact.blob plain (
      subst (λ c. IsUnchanged world c (some (algorithm_of entry.object_id)) entry.object_id) at
        (check_blob-IsUnchanged candidate entry n n' u h))

  check_entry-IsIntact :
      (selected : Bool) (root path : Text) (entry : TreeEntry) (n n' : ℕ) (u : Unit {0})
      → check_entry world selected root path entry n ≡ (ok u, n')
      → IsIntact root path selected entry
  unfolding check_entry
  check_entry-IsIntact false root path entry n n' u h = IsIntact.other refl
  check_entry-IsIntact true root path entry n n' u h =
      let (v, n₁, _, h₁) =
        run-eq-ok (require (is_plain_mode entry) Error.context_verification) _ n n' u h in
      let (candidate, n₂, e, h₂) = run-eq-ok (git_candidate world root path entry) _ n₁ n' u h₁ in
      let (at, plain) = git_candidate-below world root path entry n₁ n₂ candidate e in
      check_blob-IsIntact (is_blob entry) root path candidate entry n₂ n' u refl at plain h₂

  pub AllIntact : Text → List DeclaredPath → Dict TreeEntry → Type 0
  AllIntact root paths [] = Unit
  AllIntact root paths ((path, entry) ∷ entries) =
      IsIntact root path (is_selected paths path) entry × AllIntact root paths entries

  check_entries-AllIntact :
      (root : Text) (paths : List DeclaredPath) (entries : Dict TreeEntry) (n n' : ℕ) (u : Unit {0})
      → check_entries world root paths entries n ≡ (ok u, n')
      → AllIntact root paths entries
  unfolding check_entries AllIntact
  check_entries-AllIntact root paths [] n n' u h = tt
  check_entries-AllIntact root paths ((path, entry) ∷ entries) n n' u h =
      let (v, n₁, _, h₁) = run-eq-ok remaining_time _ n n' u h in
      let (w, n₂, one, rest) =
        run-eq-ok (check_entry world (is_selected paths path) root path entry) _ n₁ n' u h₁ in
      (
        check_entry-IsIntact (is_selected paths path) root path entry n₁ n₂ w one,
        check_entries-AllIntact root paths entries n₂ n' u rest,
      )

  -- What a verification of a commit has found, in this order of the looks at the clock: HEAD was the
  -- revision, git listed the entries of the commit; the paths are entries of it, and the selected
  -- entries are intact; git reported no change, and HEAD was still the revision at the last of all
  -- moments.
  pub record IsCommit (root revision : Text) (paths : List DeclaredPath) (vs : List VerifiedPath)
      (end : ℕ) : Type 0 where
    pub listed : ℕ
    pub before : HasHead world revision (suc (suc (suc listed)))
    pub listing : Text
    pub listing_printed :
        world.git (suc listed) (listing_of world revision paths) ≡ Process.finished listing
    pub parsed_until : ℕ
    pub entries : Dict TreeEntry
    pub parsing : parse_records [] (split 0 listing) listed ≡ (ok entries, parsed_until)
    pub verified : AreDeclared entries paths vs
    pub intact : AllIntact root paths entries
    pub no_change : world.git (suc (suc (suc end))) (status_of world paths) ≡ Process.finished []
    pub after : HasHead world revision (suc end)

  empty_of : (s : Text) → leb (length s) 0 ≡ true → s ≡ []
  empty_of s h = ground (arith, h)

  module _ (root revision : Text) (paths : List DeclaredPath) where
    -- The end of a verification: no change, and then HEAD at the last moment.
    abbrev IsClean : ℕ → Type 0
    IsClean end =
        (world.git (suc (suc (suc end))) (status_of world paths) ≡ Process.finished [])
        × HasHead world revision (suc end)

    check_clean-IsClean :
        (n n' : ℕ) (u : Unit {0}) → check_clean world revision paths n ≡ (ok u, n') → IsClean n'
    unfolding check_clean
    check_clean-IsClean n n' u h =
        let (changes, n₁, printed, h₁) =
          run-eq-ok (run_git world (status_of world paths)) _ n n' u h in
        let found = run_git-Printed world (status_of world paths) n n₁ changes printed in
        let test = leb (length changes) 0 in
        let (v, n₂, none_left, h₂) = run-eq-ok (require test Error.context_conflict) _ n₁ n' u h₁ in
        let empty = empty_of changes (require-eq-ok test _ n₁ n₂ v none_left) in
        let (after, behind) = check_head-HasHead world revision n₂ n' u h₂ in
        let moment = found.ahead ∙ ap suc (require-same test _ n₁ n₂ v none_left ∙ behind) in
        let answer =
          subst (λ m. world.git m (status_of world paths) ≡ Process.finished changes) moment
            found.answer in
        (answer ∙ ap Process.finished empty, after)

    verify_entries-found :
        (entries : Dict TreeEntry) (n n' : ℕ) (vs : List VerifiedPath)
        → verify_entries world root revision paths entries n ≡ (ok vs, n')
        → AreDeclared entries paths vs × AllIntact root paths entries × IsClean n'
    unfolding verify_entries
    verify_entries-found entries n n' vs h =
        let (verified, n₁, e, h₁) = run-eq-ok (verify_paths entries paths) _ n n' vs h in
        let (u, n₂, checked, h₂) =
          run-eq-ok (check_entries world root paths entries) _ n₁ n' vs h₁ in
        let (v, n₃, clean, last) = run-eq-ok (check_clean world revision paths) _ n₂ n' vs h₂ in
        let same : verified ≡ vs = ground (arith, last) in
        let ended : n₃ ≡ n' = ground (arith, last) in
        (
          subst (AreDeclared entries paths) same
              (verify_paths-AreDeclared entries paths n n₁ verified e),
          check_entries-AllIntact root paths entries n₁ n₂ u checked,
          subst IsClean ended (check_clean-IsClean n₂ n₃ v clean),
        )

    verify_listing-IsCommit :
        (n n' : ℕ) (vs : List VerifiedPath)
        → verify_listing world root revision paths n ≡ (ok vs, n')
        → IsCommit root revision paths vs n'
    unfolding verify_listing
    verify_listing-IsCommit n n' vs h =
        let arguments = listing_of world revision paths in
        let (u, n₁, head, h₁) = run-eq-ok (check_head world revision) _ n n' vs h in
        let (listing, n₂, printed, h₂) = run-eq-ok (run_git world arguments) _ n₁ n' vs h₁ in
        let found = run_git-Printed world arguments n₁ n₂ listing printed in
        let (entries, n₃, parsing, h₃) =
          run-eq-ok (parse_records [] (split 0 listing)) _ n₂ n' vs h₂ in
        let (verified, intact, clean) = verify_entries-found entries n₃ n' vs h₃ in
        let (before, started) = check_head-HasHead world revision n n₁ u head in
        record {
          listed = n₂;
          before =
              subst (HasHead world revision) (ap suc (found.behind ∙ ap suc found.ahead)) before;
          listing = listing;
          listing_printed =
              subst (λ m. world.git m arguments ≡ Process.finished listing) found.ahead
                found.answer;
          parsed_until = n₃;
          entries = entries;
          parsing = parsing;
          verified = verified;
          intact = intact;
          no_change = clean.0;
          after = clean.1;
        }

    -- A verification of a commit that returns has found HEAD at the revision directly before git listed
    -- the commit, and again as the last of all that it looked at; the entries that it returns are those
    -- of the declared paths in order, each listed with the declared kind and no link; it has compared
    -- each blob that the paths select with its object name in a file at the blob's path below the
    -- workspace, reached without a link and not changed while it was read; and git has then reported no
    -- change of the paths.
    pub verify_git-IsCommit :
        (n n' : ℕ) (vs : List VerifiedPath)
        → verify_git world root revision paths n ≡ (ok vs, n')
        → IsCommit root revision paths vs n'
    unfolding verify_git after_root
    verify_git-IsCommit n n' vs h =
        let (top, n₁, _, h₁) =
          run-eq-ok (run_git world (codes "rev-parse" ∷ codes "--show-toplevel" ∷ [])) _ n n' vs
            h in
        let (resolved, n₂, _, h₂) =
          run-eq-ok (call (λ m. ok (world.resolve m (rstrip_newlines top))))
            (after_root world root revision paths) n₁ n' vs h₁ in
        let (u, n₃, _, h₃) =
          run-eq-ok (require (text_eq resolved root) Error.context_verification) _ n₂ n' vs h₂ in
        let (commit, n₄, _, h₄) =
          run-eq-ok
            (run_git world (codes "cat-file" ∷ codes "-e" ∷ (revision ++ codes "^{commit}") ∷ [])) _
            n₃ n' vs h₃ in
        verify_listing-IsCommit n₄ n' vs h₄
