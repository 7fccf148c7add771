-- ===== src/Tlv/Tests.antt =====
-- Concrete payloads, and the theorems of this component at concrete inputs.
use edgectl.Prelude.{◌≡◌, ◌≢◌, refl, List, [], ◌∷◌, codes, Text, ok, err, arith, put_be, get_be}
use edgectl.Tlv.{
  Field, encode_field, encode_fields, decode_field, decode_loop, decode_fields, short_field_header,
  short_field_value, out_of_fuel,
}
use edgectl.Tlv.RoundTrip.{decode_fields-encode_fields}
use edgectl.Tlv.Canonical.{encode_fields-decode_fields, decode_fields-ne-out_of_fuel}

abbrev two_fields : List Field
two_fields =
    record { id = 300; typ = 6; value = codes "ok" } ∷ record { id = 6; typ = 4; value = [] } ∷ []

abbrev two_fields_bytes : Text
two_fields_bytes = 1 ∷ 44 ∷ 6 ∷ 0 ∷ 0 ∷ 0 ∷ 2 ∷ 111 ∷ 107 ∷ 0 ∷ 6 ∷ 4 ∷ 0 ∷ 0 ∷ 0 ∷ 0 ∷ []

encode_two_fields : encode_fields two_fields ≡ two_fields_bytes
unfolding encode_fields encode_field put_be
encode_two_fields = refl

decode_two_fields : decode_fields two_fields_bytes ≡ ok two_fields
unfolding decode_fields decode_loop decode_field get_be
decode_two_fields = refl

decode_short_header : decode_fields (1 ∷ 44 ∷ []) ≡ err short_field_header
unfolding decode_fields decode_loop decode_field get_be
decode_short_header = refl

decode_short_value : decode_fields (1 ∷ 44 ∷ 6 ∷ 0 ∷ 0 ∷ 0 ∷ 2 ∷ 111 ∷ []) ≡ err short_field_value
unfolding decode_fields decode_loop decode_field get_be
decode_short_value = refl

decode_fields-encode_fields_example : decode_fields (encode_fields two_fields) ≡ ok two_fields
decode_fields-encode_fields_example =
    decode_fields-encode_fields two_fields (omega arith)
      (unfold encode_fields encode_field put_be in omega arith)

encode_fields-decode_fields_example : encode_fields two_fields ≡ two_fields_bytes
encode_fields-decode_fields_example =
    encode_fields-decode_fields two_fields_bytes two_fields (omega arith) decode_two_fields

decode_fields-ne-out_of_fuel_example : decode_fields two_fields_bytes ≢ err out_of_fuel
decode_fields-ne-out_of_fuel_example = decode_fields-ne-out_of_fuel two_fields_bytes
