-- ===== src/Validate/Tests.antt =====
-- Keys that the validators take and refuse.
use inmem_cache.Base.{◌≡◌, refl, [], ◌∷◌, none, some}
use inmem_cache.Base.Bytes.{bytes, bytes_beq}
use inmem_cache.Errors.{Field, Reason}
use inmem_cache.Validate.{validate_scope, validate_id_or_seq, check_key_field, has_control_byte}
use inmem_cache.Validate.Space.{trim_space, trim_while, leading_space, trailing_space}
use inmem_cache.Validate.Params.{normalize_limit}
use inmem_cache.Decimal.{parse_int, parse_magnitude, parse_digits}

takes_a_key : validate_scope (bytes "user:1 x") ≡ none
unfolding validate_scope check_key_field trim_space trim_while leading_space trailing_space
    has_control_byte bytes_beq
takes_a_key = refl

-- U+3000 at the end
refuses_wide_space :
    validate_scope (65 ∷ 227 ∷ 128 ∷ 128 ∷ []) ≡ some (Reason.has_whitespace Field.scope)
unfolding validate_scope check_key_field trim_space trim_while leading_space trailing_space
    has_control_byte bytes_beq
refuses_wide_space = refl

refuses_both : validate_id_or_seq (bytes "a") 1 ≡ some Reason.id_xor_seq
unfolding validate_id_or_seq
refuses_both = refl

clamps_limit : normalize_limit (bytes "20000") ≡ some 10000
unfolding normalize_limit parse_int parse_magnitude parse_digits
clamps_limit = refl
