-- ===== src/Base/Result.antt =====
-- Raised exceptions as values: the classes that the modelled code raises or catches, and the
-- chaining of calls that may raise.
use fast_tak.Base.{ℕ, String, ◌≡◌, refl}

pub data Error : Type 0 where
  key_error type_error attribute_error value_error : Error
  os_error http_error backup_already_running : Error
  runtime_error : String → Error
  http_exception : ℕ → String → Error

-- What a call comes to: it raises, or it returns.
pub data Result {ℓ} (V : Type ℓ) : Type ℓ where
  err : Error → Result V
  ok : V → Result V

module _ {ℓ κ} {V : Type ℓ} {W : Type κ} where
  infixl 5 ◌>>=◌
  -- The next call takes the value of the first, which an exception skips.
  abbrev pub ◌>>=◌ : Result V → (V → Result W) → Result W
  err raised >>= next = err raised
  ok value >>= next = next value

  -- Where the chain returns, both of its calls did.
  pub >>=-eq-ok :
      (first : Result V) (next : V → Result W) {last : W}
      → (first >>= next) ≡ ok last
      → (value : V) × (first ≡ ok value) × (next value ≡ ok last)
  >>=-eq-ok (err raised) next whole = cc
  >>=-eq-ok (ok value) next whole = (value, refl, whole)

module _ {ℓ κ} {V : Type ℓ} {W : Type κ} where
  infixl 5 ◌>>◌
  -- The same, where the first value is not used.
  abbrev pub ◌>>◌ : Result V → Result W → Result W
  first >> second = first >>= λ value. second
