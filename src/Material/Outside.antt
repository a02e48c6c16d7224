-- ===== src/Material/Outside.antt =====
-- What the verification of declared material in scripts/governance_context.py takes from outside, and
-- its runs under a deadline.
use subagent_governance.Base.{
  ℕ, zero, suc, Text, Bool, true, false, List, Result, ok, err, Error, ◌≡◌, refl, arith,
}

pub data FileKind : Type 0 where
  regular directory link special : FileKind

-- The parts of os.stat_result that the code reads.
pub record Metadata : Type 0 where
  pub kind : FileKind
  pub device : ℕ
  pub inode : ℕ
  pub size : ℕ
  pub modified : ℕ
  pub changed : ℕ

-- An open file: what fstat says first, the chunks that are read before the end, how the read at the
-- end goes, and what fstat says then.
pub record Handle : Type 0 where
  pub before : Result Metadata
  pub chunks : List Text
  pub ending : Result (Unit {0})
  pub after : Result Metadata

-- How a subprocess ends.
pub data Process : Type 0 where
  finished : Text → Process
  timed_out failed : Process

pub data Algorithm : Type 0 where
  sha1 sha256 : Algorithm

-- The operating system, pathlib, hashlib and git. The first argument is the moment of the call: what
-- the file system says may change between two moments.
pub record World : Type 0 where
  pub stat : ℕ → Text → Result Metadata
  pub lstat : ℕ → Text → Result Metadata
  pub open_file : ℕ → Text → Result Handle
  pub scandir : ℕ → Text → Result (Unit {0})
  pub resolve : ℕ → Text → Text
  pub git : ℕ → List Text → Process
  pub child : Text → Text → Text
  pub is_inside : Text → Text → Bool
  pub is_absolute : Text → Bool
  pub is_windows : Bool
  pub hash : Algorithm → List Text → Text
  pub size_header : ℕ → Text

-- A run of code that looks at the clock: the state is the number of looks before the deadline has
-- passed, and it is the moment of a call as well. Time does not run backwards.
abbrev pub Timed : Type 0 → Type 0
Timed A = ℕ → Result A × ℕ

module _ {A : Type 0} where
  abbrev pub pure : A → Timed A
  pure a moment = (ok a, moment)

  abbrev pub raise : Error → Timed A
  raise e moment = (err e, moment)

  -- A call of the world at this moment.
  abbrev pub call : (ℕ → Result A) → Timed A
  call f moment = (f moment, moment)

  abbrev continue : {B : Type 0} → (A → Timed B) → Result A × ℕ → Result B × ℕ
  continue rest (err e, moment) = (err e, moment)
  continue rest (ok a, moment) = rest a moment

  infixl 5 ◌>>=◌
  abbrev pub ◌>>=◌ : {B : Type 0} → Timed A → (A → Timed B) → Timed B
  (first >>= rest) moment = continue rest (first moment)

  abbrev recover : (Error → Timed A) → Result A × ℕ → Result A × ℕ
  recover handler (err e, moment) = handler e moment
  recover handler (ok a, moment) = (ok a, moment)

  -- `try: body`, with the `except` clauses
  abbrev pub attempt : Timed A → (Error → Timed A) → Timed A
  attempt body handler moment = recover handler (body moment)

infixl 5 ◌>>◌
abbrev pub ◌>>◌ : {B : Type 0} → Timed (Unit {0}) → Timed B → Timed B
first >> rest = first >>= λ done. rest

-- `if not test: raise e`
abbrev pub require : Bool → Error → Timed (Unit {0})
require test e = elim test [ false ↦ raise e | true ↦ pure tt ]

-- remaining_time
unfoldable pub remaining_time : Timed (Unit {0})
remaining_time zero = (err Error.context_verification, zero)
remaining_time (suc moment) = (ok tt, moment)

module _ {A B : Type 0} where
  continued :
      (first : Timed A) (rest : A → Timed B) (n n' : ℕ) (b : B) (r : Result A × ℕ)
      → first n ≡ r
      → continue rest r ≡ (ok b, n')
      → (a : A) × (m : ℕ) × (first n ≡ (ok a, m)) × (rest a m ≡ (ok b, n'))
  continued first rest n n' b (ok a, m) e h = (a, m, e, h)
  continued first rest n n' b (err x, m) e h = absurd (ground (arith, h))

  -- A run that returns got past its first part.
  pub run-eq-ok :
      (first : Timed A) (rest : A → Timed B) (n n' : ℕ) (b : B)
      → (first >>= rest) n ≡ (ok b, n')
      → (a : A) × (m : ℕ) × (first n ≡ (ok a, m)) × (rest a m ≡ (ok b, n'))
  run-eq-ok first rest n n' b h = continued first rest n n' b (first n) refl h

pub require-eq-ok :
    (test : Bool) (e : Error) (n n' : ℕ) (u : Unit {0})
    → require test e n ≡ (ok u, n')
    → test ≡ true
require-eq-ok true e n n' u h = refl
require-eq-ok false e n n' u h = absurd (ground (arith, h))

-- A test takes no time.
pub require-same :
    (test : Bool) (e : Error) (n n' : ℕ) (u : Unit {0}) → require test e n ≡ (ok u, n') → n ≡ n'
require-same true e n n' u h = ground (arith, h)
require-same false e n n' u h = absurd (ground (arith, h))

-- A look at the clock takes one step of it.
pub remaining_time-suc : (n n' : ℕ) (u : Unit {0}) → remaining_time n ≡ (ok u, n') → n ≡ suc n'
unfolding remaining_time
remaining_time-suc zero n' u h = absurd (ground (arith, h))
remaining_time-suc (suc n) n' u h = ground (arith, h)
