-- ===== src/Errors.antt =====
-- The errors of types.go, validation.go and store.go, one constructor for each. Where the source
-- builds a text, the constructor keeps what the text tells apart.
use inmem_cache.Base.{ℕ, List, ◌≡◌, refl, ◌⊎◌, inl, inr}
use inmem_cache.Base.Bytes.{Bytes}
use inmem_cache.Types.{ScopeCapacityOffender}

pub data Field : Type 0 where
  scope id prefix after : Field

-- Why an input is invalid: the messages of validation.go, which `wrapValidation` puts behind
-- ErrInvalidInput.
pub data Reason : Type 0 where
  required too_long has_whitespace has_control : Field → Reason
  id_xor_seq payload_required payload_invalid seq_managed ts_managed : Reason
  reserved : Bytes → Reason
  by_required by_zero by_range max_seq_required : Reason
  item_too_large : ℕ → ℕ → Reason
  duplicate_in_batch : Bytes → Reason
  scope_mismatch : Bytes → Reason

-- The three reasons of CounterPayloadError.
pub data CounterReason : Type 0 where
  not_number not_integer out_of_range : CounterReason

pub data Error : Type 0 where
  scope_detached : Error
  scope_full : ℕ → ℕ → Error
  scope_capacity : List ScopeCapacityOffender → Error
  store_full : ℕ → ℕ → ℕ → Error
  counter_payload : CounterReason → Error
  counter_overflow : ℕ → ℕ → Error
  duplicate_id scope_required : Error
  invalid_input : Reason → Error

pub data Result {ℓ} (A : Type ℓ) : Type ℓ where
  ok : A → Result A
  err : Error → Result A

pub Result-cases :
    {A : Type 0} (r : Result A) → ((e : Error) × (r ≡ err e)) ⊎ ((a : A) × (r ≡ ok a))
Result-cases (err e) = inl (e, refl)
Result-cases (ok a) = inr (a, refl)
