-- ===== src/Python/Exceptions.antt =====
-- Exceptions as values. A call either returns or raises; `do` is a sequence of calls.
use Prim.Native.String.{String}
use mathlib.Core.Bool.{Bool, true, false}
use mathlib.Core.List.{List}
use mathlib.Core.Path.{◌≡◌, refl}
use mathlib.Core.Logic.{◌⊎◌, inl, inr}

-- `partial_delivery` holds the names of `PartialDeliveryError.failures`; `target_error` is any
-- exception of an adapter or of the transport below it.
pub data Exc : Type 0 where
  attribute_error type_error value_error key_error index_error runtime_error : Exc
  json_decode_error unicode_decode_error assertion_error : Exc
  target_error : String → Exc
  partial_delivery : List String → Exc

-- `except (json.JSONDecodeError, UnicodeDecodeError)`
abbrev pub is_decode_error : Exc → Bool
is_decode_error json_decode_error = true
is_decode_error unicode_decode_error = true
is_decode_error _ = false

pub data Result {ℓ} (A : Type ℓ) : Type ℓ where
  ok : A → Result A
  raised : Exc → Result A

infixl 5 ◌>>=◌
abbrev pub ◌>>=◌ {ℓ κ} : {A : Type ℓ} {B : Type κ} → Result A → (A → Result B) → Result B
ok a >>= f = f a
raised e >>= f = raised e

pub Result-cases {ℓ} :
    {A : Type ℓ} (r : Result A) → ((a : A) × (r ≡ ok a)) ⊎ ((e : Exc) × (r ≡ raised e))
Result-cases (ok a) = inl (a, refl)
Result-cases (raised e) = inr (e, refl)
