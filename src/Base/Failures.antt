-- ===== src/Base/Failures.antt =====
-- Python's exceptions as values. An exception ends the function that raises it, so a fallible
-- function returns `Result`, and a `do` block stops at the first `err`.
use Prim.Native.Nat.{ℕ}
use Prim.Native.String.{String}
use mathlib.Core.Path.{◌≡◌, refl}
use mathlib.Core.Bool.{Bool, true, false}

pub data Failure : Type 0 where
  -- `ValueError`, with the part of its message that is fixed in the source
  value_error : String → Failure
  -- `TraceValidationError`, with the record number, the field and the reason
  trace_error : ℕ → String → String → Failure
  -- `TokenSequenceError`, with the field, if there is one, and the reason
  token_error : String → String → Failure
  -- `StopIteration`, from `next` on an exhausted generator
  stop_iteration : Failure
  -- `KeyError`, from a missing dictionary key
  key_error : Failure
  -- `OverflowError`, from `float` of an integer that is too large
  overflow_error : Failure
  -- `ZeroDivisionError`, from a division by 0
  zero_division : Failure
  -- no exception: a loop of the model met its bound
  out_of_fuel : Failure

pub data Result {ℓ} (A : Type ℓ) : Type ℓ where
  ok : A → Result A
  err : Failure → Result A

pub ok-injective {ℓ} : {A : Type ℓ} {a b : A} → ok a ≡ ok b → a ≡ b
ok-injective same = cc

-- `if test: raise failure`.
abbrev pub raise_if : Bool → Failure → Result (Unit {0})
raise_if true failure = err failure
raise_if false failure = ok tt

-- A test that was passed was false.
pub passed_lem : (b : Bool) (e : Failure) {u : Unit {0}} → raise_if b e ≡ ok u → b ≡ false
passed_lem true e h = cc
passed_lem false e h = refl

infixl 5 ◌>>=◌
abbrev pub ◌>>=◌ {ℓ κ} : {A : Type ℓ} {B : Type κ} → Result A → (A → Result B) → Result B
err failure >>= next = err failure
ok value >>= next = next value

-- The parts of a successful chain.
pub >>=-eq-ok {ℓ κ} :
    {A : Type ℓ} {B : Type κ} (first : Result A) (next : A → Result B) {last : B}
    → (first >>= next) ≡ ok last
    → (value : A) × (first ≡ ok value) × (next value ≡ ok last)
>>=-eq-ok (err failure) next done = cc
>>=-eq-ok (ok value) next done = (value, refl, done)

-- A statement whose value nothing reads.
infixl 5 ◌>>◌
abbrev pub ◌>>◌ {ℓ} : {B : Type ℓ} → Result (Unit {0}) → Result B → Result B
statement >> rest = statement >>= λ _. rest
