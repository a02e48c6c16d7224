-- ===== src/Tests/Files.antt =====
-- A file system and a repository with one declared file, and a private file.
use subagent_governance.Base.{
  codes, refl, none, some, true, false, Bool, ok, Error, [], ◌∷◌, ◌++◌, Text, Text-discrete,
  ℕ_discrete, strip, text_eq, List, if◌then◌else◌, codes, split, insert, lookup,
}
use subagent_governance.Json.{is_member}
use subagent_governance.Contract.{PathKind, Baseline, DeclaredPath, Manifest, VerifiedPath}
use subagent_governance.Material.Outside.{FileKind, Metadata, Handle, Process, World}
use subagent_governance.Material.{verify_files, verify_context_manifest}
use subagent_governance.Material.Git.{verify_git}
use subagent_governance.Material.Errors.{IsFailed, verify_context_manifest-IsFailed}
use subagent_governance.Material.WorkingTree.{AreVerified, verify_files-AreVerified}
use subagent_governance.Material.Commit.{IsCommit, verify_git-IsCommit}
use subagent_governance.Storage.{
  Metadata as PrivateMetadata, Call, Disk, Failures, Platform, Answer, Opened, atomic_write_bytes,
  read_private_bytes,
}
use subagent_governance.Storage.Writing.{IsAtomic, atomic_write_bytes-IsAtomic}
use subagent_governance.Storage.Reading.{IsRead, read_private_bytes-IsRead}
use subagent_governance.Tests.Data.{digest}

plain : Metadata
plain = record {
  kind = FileKind.regular;
  device = 1;
  inode = 2;
  size = 4;
  modified = 5;
  changed = 6;
}

opened : Handle
opened = record { before = ok plain; chunks = codes "data" ∷ []; ending = ok tt; after = ok plain }

-- What git prints, by the first two arguments.
git_prints : Text → Text → Text
git_prints command option =
    if text_eq command (codes "ls-tree")
    then codes "100644 blob " ++ (digest ++ (9 ∷ b'f' ∷ 0 ∷ []))
    else if text_eq option (codes "--verify")
    then digest
    else if text_eq option (codes "--show-toplevel")
    then codes "/w\n"
    else []

git_answers : List Text → Process
git_answers (command ∷ option ∷ more) = Process.finished (git_prints command option)
git_answers _ = Process.failed

world : World
world = record {
  stat = λ moment path. ok plain;
  lstat = λ moment path. ok plain;
  open_file = λ moment path. ok opened;
  scandir = λ moment path. ok tt;
  resolve = λ moment path. path;
  git = λ moment arguments. git_answers arguments;
  child = λ parent part. parent ++ (b'/' ∷ part);
  is_inside = λ root path. true;
  is_absolute = λ path. true;
  is_windows = false;
  hash = λ algorithm chunks. digest;
  size_header = λ size. codes "blob 4";
}

declared : DeclaredPath
declared = record { path = codes "f"; kind = PathKind.file }

verified : VerifiedPath
verified = record { path = codes "f"; kind = PathKind.file; digest = digest }

verify_files-AreVerified_example : AreVerified world (codes "/w") (declared ∷ []) (verified ∷ [])
unfolding verify_files declared verified world plain opened
verify_files-AreVerified_example =
    verify_files-AreVerified world (codes "/w") (declared ∷ []) 20 _ (verified ∷ []) refl

verify_git-IsCommit_example : IsCommit world (codes "/w") digest (declared ∷ []) (verified ∷ []) 37
unfolding verify_git declared verified world plain opened git_answers git_prints Text-discrete
    ℕ_discrete strip split insert lookup
verify_git-IsCommit_example =
    verify_git-IsCommit world (codes "/w") digest (declared ∷ []) 60 _ (verified ∷ []) refl

-- A workspace that is a file.
manifest : Manifest
manifest = record {
  workspace_root = codes "/w";
  baseline = Baseline.working_tree;
  required_paths = declared ∷ [];
}

verify_context_manifest-IsFailed_example : IsFailed world 20 manifest Error.context_conflict
unfolding verify_context_manifest manifest declared world plain is_member Text-discrete
verify_context_manifest-IsFailed_example =
    verify_context_manifest-IsFailed world 20 manifest Error.context_conflict refl

sync_fails : Call → Bool
sync_fails Call.sync_directory = true
sync_fails _ = false

failures : Failures
failures = record { fails = sync_fails; written = 0 }

old_file : Disk
old_file = record { target = some (codes "old"); temporary = none }

atomic_write_bytes-IsAtomic_example :
    IsAtomic failures
      (codes "new")
      old_file
      (atomic_write_bytes failures (codes "new") old_file).0
      (atomic_write_bytes failures (codes "new") old_file).1
atomic_write_bytes-IsAtomic_example = atomic_write_bytes-IsAtomic failures (codes "new") old_file

posix : Platform
posix = record { uid = some 7; is_windows = false }

private_file : PrivateMetadata
private_file = record { kind = FileKind.regular; owner = 7; permissions = 384; size = 2 }

found : Answer PrivateMetadata
found = Answer.answered private_file

opened_private : Answer Opened
opened_private =
    Answer.answered
      (record { status = Answer.answered private_file; contents = Answer.answered (codes "{}") })

read_private_bytes-IsRead_example : IsRead posix 10 found opened_private (codes "{}")
unfolding read_private_bytes posix private_file found opened_private
read_private_bytes-IsRead_example =
    read_private_bytes-IsRead posix 10 found opened_private (codes "{}") refl
