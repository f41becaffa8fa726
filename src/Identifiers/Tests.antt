-- ===== src/Identifiers/Tests.antt =====
-- Identifiers at concrete inputs.
use tinvest.Prelude.{
  ℕ, zero, suc, ◌<◌, All, ◌≡◌, refl, true, List, replicate, Text, codes, trim_space, arith,
}
use tinvest.Identifiers.{
  fits, uid_pattern, classify_id, without_dashes, validate_order_id, hex_bytes, set_bits,
  format_uuid, new_order_id,
}
use tinvest.Identifiers.Uuid.{validate_order_id-fits, new_order_id-validate_order_id}
use tinvest.Identifiers.Ticker.{IsReading, classify_id-IsReading}

abbrev zeros : List ℕ
zeros = replicate 16 0

small : (n : ℕ) → All (λ b. b < 256) (replicate n 0)
small zero = tt
small (suc n) = (omega arith, small n)

zero_id : new_order_id zeros ≡ codes "00000000-0000-4000-8000-000000000000"
unfolding new_order_id format_uuid set_bits hex_bytes
zero_id = refl

abbrev some_id : Text
some_id = codes "5f2c7c3e-1d2b-4a6f-9c3d-0123456789ab"

accepted : validate_order_id some_id ≡ true
unfolding validate_order_id without_dashes
accepted = refl

validate_order_id-fits_example : validate_order_id some_id ≡ fits uid_pattern some_id
validate_order_id-fits_example = validate_order_id-fits some_id

new_order_id-validate_order_id_example : validate_order_id (new_order_id zeros) ≡ true
new_order_id-validate_order_id_example = new_order_id-validate_order_id zeros refl (small 16)

classify_id-IsReading_example :
    IsReading (trim_space (codes " SBER@TQBR")) (classify_id (codes " SBER@TQBR"))
classify_id-IsReading_example = classify_id-IsReading (codes " SBER@TQBR")
