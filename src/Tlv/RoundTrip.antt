-- ===== src/Tlv/RoundTrip.antt =====
-- Decoding what `EncodeFields` wrote.
use edgectl.Prelude.{
  ℕ, zero, suc, ◌+◌, ◌%◌, ◌^◌, ◌≤◌, ◌<◌, ◌≡◌, refl, ◌∙◌, List, [], ◌∷◌, ◌++◌, length, All, Text, ok,
  arith, put_be, length-append, get_be-put_be, take-append, drop-append, ◌>>=◌,
}
use edgectl.Tlv.{
  Field, IsWire, encode_field, encode_fields, decode_field, decode_loop, decode_fields,
}

pub length-encode_field : (f : Field) → length (encode_field f) ≡ 7 + length f.value
unfolding encode_field put_be
length-encode_field f = omega arith

pub decode_field-encode_field :
    (f : Field) (rest : Text)
    → IsWire f
    → length f.value + length rest < 2 ^ 32
    → decode_field (encode_field f ++ rest) ≡ ok (f, rest)
unfolding encode_field decode_field put_be
decode_field-encode_field f rest w fits = ground (
  arith,
  get_be-put_be 2 f.id (omega arith),
  get_be-put_be 4 (length f.value % 2 ^ 32) (omega arith),
  take-append (length f.value) f.value rest refl,
  drop-append (length f.value) f.value rest refl,
  length-append f.value rest,
)

-- One round of the loop on a payload that begins with an encoded field.
decode_loop_step :
    (fuel : ℕ) (payload : Text) (f : Field) (rest : Text)
    → decode_field payload ≡ ok (f, rest)
    → decode_loop (suc fuel) payload ≡ (decode_loop fuel rest >>= λ fs. ok (f ∷ fs))
unfolding decode_loop
decode_loop_step fuel [] f rest e = unfold decode_field in cc
decode_loop_step fuel (b ∷ bs) f rest e = rw e

decode_loop-encode_fields :
    (fs : List Field) (fuel : ℕ)
    → All IsWire fs
    → length (encode_fields fs) < 2 ^ 32
    → length (encode_fields fs) ≤ fuel
    → decode_loop fuel (encode_fields fs) ≡ ok fs
unfolding encode_fields
decode_loop-encode_fields [] fuel w fits enough = unfold decode_loop in refl
decode_loop-encode_fields (f ∷ fs) zero w fits enough =
    absurd (omega (arith, length-append (encode_field f) (encode_fields fs), length-encode_field f))
decode_loop-encode_fields (f ∷ fs) (suc fuel) w fits enough =
    let whole = length-append (encode_field f) (encode_fields fs) in
    let own = length-encode_field f in
    decode_loop_step fuel (encode_field f ++ encode_fields fs) f (encode_fields fs)
      (decode_field-encode_field f (encode_fields fs) w.0 (omega arith))
    ∙ rw (decode_loop-encode_fields fs fuel w.1 (omega arith) (omega arith))

-- Fields whose words fit, in a payload below 2^32 bytes, are decoded to the same fields in the
-- same order.
pub decode_fields-encode_fields :
    (fs : List Field)
    → All IsWire fs
    → length (encode_fields fs) < 2 ^ 32
    → decode_fields (encode_fields fs) ≡ ok fs
unfolding decode_fields
decode_fields-encode_fields fs w fits =
    decode_loop-encode_fields fs (length (encode_fields fs)) w fits (omega arith)
