-- ===== src/Ws/UnitTests.antt =====
-- The unit tests of wasm/src/lib.rs, as programs of the model. A test passes if it does not panic.
pub mod Codec
pub mod Strings
use grpcgi.Base.{Bool, true, false, not, ◌>>=◌, if◌then◌else◌, Outcome, ok, nothing, panic, stuck}

-- The result of a test.
abbrev pub UnitTest : Type 0
UnitTest = Outcome Unit

abbrev pub passed : UnitTest
passed = ok tt

-- `assert!(…)`, in front of the rest of a test.
abbrev pub asserting : Bool → UnitTest → UnitTest
asserting condition rest = if condition then rest else panic

-- `.unwrap()`
abbrev pub unwrap {ℓ} : {A : Type ℓ} → Outcome A → Outcome A
unwrap nothing = panic
unwrap m = m

-- `.is_none()` and `.is_some()`
abbrev pub is_none {ℓ} : {A : Type ℓ} → Outcome A → Outcome Bool
is_none nothing = ok true
is_none (ok a) = ok false
is_none panic = panic
is_none stuck = stuck

abbrev pub is_some {ℓ} : {A : Type ℓ} → Outcome A → Outcome Bool
is_some m = is_none m >>= λ missing. ok (not missing)
