-- ===== src/Common/Exceptions.antt =====
-- Python's exceptions as values. `exception` is the class Exception itself. `comms_error` is the class `Error` of comms/custom.py, and
-- `access_error` the class AccessError of armv2.pyx; `no_fuel` is
-- no exception of Python's but the end of a loop's fuel.
use mathlib.Core.Bool.{Bool, true, false}

pub data Exn : Type 0 where
  struct_error index_error key_error value_error type_error unicode_error comms_error name_error
        attribute_error access_error overflow_error runtime_error exception assertion_error
        no_fuel :
      Exn

pub data Result {ℓ} (A : Type ℓ) : Type ℓ where
  ok : A → Result A
  raised : Exn → Result A

infixl 5 ◌>>=◌ ◌>>◌
abbrev pub ◌>>=◌ {ℓ κ} : {A : Type ℓ} {B : Type κ} → Result A → (A → Result B) → Result B
ok a >>= f = f a
raised e >>= f = raised e

abbrev pub ◌>>◌ {ℓ} : {B : Type ℓ} → Result (Unit {0}) → Result B → Result B
m >> k = m >>= λ _. k

abbrev pub guard : Bool → Exn → Result (Unit {0})
guard true e = ok tt
guard false e = raised e
