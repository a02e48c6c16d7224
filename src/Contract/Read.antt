-- ===== src/Contract/Read.antt =====
-- The fields of a checked contract, read as typed data.
use subagent_governance.Base.{Text, codes, Option, none, some, List, [], ◌∷◌, if◌then◌else◌}
use subagent_governance.Json.{Value, Fields, values, get, is_word}
use subagent_governance.Semantics.{Profile}
use subagent_governance.Contract.{
  PathKind, Baseline, DeclaredPath, Manifest, Context, Spawn, Business, TaskContract,
}

-- The typed reading of a checked dictionary: `TaskContract(**…)` keeps the values as they are.
pub text : Value → Option Text
text (Value.str s) = some s
text _ = none

pub nullable : Value → Option (Option Text)
nullable Value.null = some none
nullable (Value.str s) = some (some s)
nullable _ = none

infixl 5 ◌>>=◌
abbrev ◌>>=◌ : {A B : Type 0} → Option A → (A → Option B) → Option B
none >>= f = none
some a >>= f = f a

pub each : {A : Type 0} → (Value → Option A) → List Value → Option (List A)
each f [] = some []
each f (v ∷ vs) = do x ← f v; xs ← each f vs; some (x ∷ xs)

pub list : {A : Type 0} → (Value → Option A) → Value → Option (List A)
unfolding each values
list f (Value.arr vs) = each f (values vs)
list f _ = none

profile : Value → Option Profile
profile v =
    if is_word (codes "standard") v
    then some Profile.standard
    else if is_word (codes "strict") v
    then some Profile.strict
    else none

kind : Value → Option PathKind
kind v =
    if is_word (codes "file") v
    then some PathKind.file
    else if is_word (codes "directory") v
    then some PathKind.directory
    else none

path : Value → Option DeclaredPath
unfolding text kind get
path (Value.obj fs) = do
  p ← text (get (codes "path") fs)
  k ← kind (get (codes "type") fs)
  some (record { path = p; kind = k })
path _ = none

baseline : Value → Option Baseline
unfolding text get
baseline (Value.obj fs) =
    if is_word (codes "working_tree") (get (codes "kind") fs)
    then some Baseline.working_tree
    else do revision ← text (get (codes "revision") fs); some (Baseline.git_commit revision)
baseline _ = none

manifest : Value → Option (Option Manifest)
unfolding text baseline list path get
manifest Value.null = some none
manifest (Value.obj fs) = do
  root ← text (get (codes "workspace_root") fs)
  base ← baseline (get (codes "baseline") fs)
  paths ← list path (get (codes "required_paths") fs)
  some (some (record { workspace_root = root; baseline = base; required_paths = paths }))
manifest _ = none

context : Value → Option Context
unfolding text list manifest get
context (Value.obj fs) = do
  summary ← text (get (codes "summary") fs)
  paths ← list text (get (codes "paths") fs)
  verified ← manifest (get (codes "verified") fs)
  some (record { summary = summary; paths = paths; verified = verified })
context _ = none

spawn : Value → Option Spawn
unfolding text nullable get
spawn (Value.obj fs) = do
  turns ← text (get (codes "fork_turns") fs)
  model ← nullable (get (codes "model") fs)
  effort ← nullable (get (codes "reasoning_effort") fs)
  some (record { fork_turns = turns; model = model; reasoning_effort = effort })
spawn _ = none

business : Fields → Option Business
unfolding text list profile context get
business fs = do
  p ← profile (get (codes "profile") fs)
  objective ← text (get (codes "objective") fs)
  scope ← list text (get (codes "scope") fs)
  forbidden ← list text (get (codes "forbidden_scope") fs)
  completion ← list text (get (codes "completion") fs)
  evidence ← list text (get (codes "evidence") fs)
  c ← context (get (codes "context") fs)
  some (record {
    profile = p;
    objective = objective;
    scope = scope;
    forbidden_scope = forbidden;
    completion = completion;
    evidence = evidence;
    context = c;
  })

unfoldable pub contract : Fields → Option TaskContract
unfolding business spawn get
contract fs = do
  b ← business fs
  s ← spawn (get (codes "spawn") fs)
  some (record { business_record = b; spawn = s })
