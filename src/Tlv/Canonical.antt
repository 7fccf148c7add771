-- ===== src/Tlv/Canonical.antt =====
-- Decoding an arbitrary payload: the loop ends, and an accepted payload is the encoding of its fields.
use edgectl.Prelude.{
  ℕ, zero, suc, ◌%◌, ◌^◌, ◌≤◌, ◌<◌, ◌≡◌, ◌≢◌, refl, sym, ap, ◌∙◌, List, [], ◌∷◌, ◌++◌, length, take,
  drop, All, Text, ok, err, arith, get_be, IsByte, length-drop, take-append-drop, length-take, inl,
  inr, Result-cases, >>=-eq-ok, put_be-get_be_two, put_be-get_be_four, get_be_four-lt,
}
use edgectl.Prelude.{All-drop, ok-injective}
use edgectl.Tlv.{
  Field, encode_field, encode_fields, decode_field, decode_loop, decode_fields, out_of_fuel,
}

-- A field that was read has left a shorter rest, and is not the mark of spent fuel.
decode_field_shorter :
    (payload : Text) (f : Field) (rest : Text)
    → decode_field payload ≡ ok (f, rest)
    → length rest < length payload
unfolding decode_field
decode_field_shorter payload f rest e =
    ground (
      arith,
      length-drop 7 payload,
      length-drop (get_be (take 4 (drop 3 payload))) (drop 7 payload),
    )

decode_field-ne-out_of_fuel : (payload : Text) → decode_field payload ≢ err out_of_fuel
unfolding decode_field
decode_field-ne-out_of_fuel payload = ground arith

decode_loop-ne-out_of_fuel :
    (fuel : ℕ) (payload : Text) → length payload ≤ fuel → decode_loop fuel payload ≢ err out_of_fuel
unfolding decode_loop
decode_loop-ne-out_of_fuel fuel [] h = λ e. cc
decode_loop-ne-out_of_fuel zero (b ∷ bs) h = absurd (omega arith)
decode_loop-ne-out_of_fuel (suc fuel) (b ∷ bs) h = elim (Result-cases (decode_field (b ∷ bs))) [
  | inl ((f, rest), e) ↦ rw e (λ stuck. ground (
    arith,
    stuck,
    decode_loop-ne-out_of_fuel fuel rest (omega (arith, decode_field_shorter _ f rest e)),
  ))
  | inr (x, e) ↦ rw e (λ stuck. decode_field-ne-out_of_fuel (b ∷ bs) (ground (arith, stuck)))
]

-- The decoder's loop ends on every payload: it is never cut short.
pub decode_fields-ne-out_of_fuel : (payload : Text) → decode_fields payload ≢ err out_of_fuel
unfolding decode_fields
decode_fields-ne-out_of_fuel payload =
    decode_loop-ne-out_of_fuel (length payload) payload (omega arith)

-- What a field is read from.
decode_field_parts :
    (i j t k l m n : ℕ) (more : Text) (f : Field) (rest : Text)
    → let size = get_be (k ∷ l ∷ m ∷ n ∷ []) in
      decode_field (i ∷ j ∷ t ∷ k ∷ l ∷ m ∷ n ∷ more) ≡ ok (f, rest)
      → (f ≡ record { id = get_be (i ∷ j ∷ []); typ = t; value = take size more })
        × (rest ≡ drop size more)
        × (size ≤ length more)
unfolding decode_field
decode_field_parts i j t k l m n more f rest e = ground arith

-- A field that was read, and what follows it, are the bytes that it was read from.
encode_field-decode_field :
    (payload : Text) (f : Field) (rest : Text)
    → All IsByte payload
    → decode_field payload ≡ ok (f, rest)
    → (encode_field f ++ rest ≡ payload) × All IsByte rest
unfolding decode_field encode_field
encode_field-decode_field (i ∷ j ∷ t ∷ k ∷ l ∷ m ∷ n ∷ more) f rest b e =
    let (fe, re, fits) = decode_field_parts i j t k l m n more f rest e in
    let size = get_be (k ∷ l ∷ m ∷ n ∷ []) in
    let kept : length (take size more) % 2 ^ 32 ≡ size = omega (
      arith,
      length-take size more,
      get_be_four-lt k l (omega arith) (omega arith) m n (omega arith) (omega arith),
    ) in
    rw (fe, re)
      (
        rw
            (
              kept,
              put_be-get_be_two i j (omega arith) (omega arith),
              put_be-get_be_four k l (omega arith) (omega arith) m n (omega arith) (omega arith),
            )
            (ap (λ r. i ∷ j ∷ t ∷ k ∷ l ∷ m ∷ n ∷ r) (take-append-drop size more)),
        All-drop IsByte size more b.1.1.1.1.1.1.1,
      )
encode_field-decode_field _ f rest b e = cc

encode_fields-decode_loop :
    (fuel : ℕ) (payload : Text) (fs : List Field)
    → All IsByte payload
    → decode_loop fuel payload ≡ ok fs
    → encode_fields fs ≡ payload
unfolding decode_loop encode_fields
encode_fields-decode_loop fuel [] [] b e = refl
encode_fields-decode_loop fuel [] (f ∷ fs) b e = cc
encode_fields-decode_loop zero (x ∷ xs) fs b e = cc
encode_fields-decode_loop (suc fuel) (x ∷ xs) fs b e =
    let ((f, rest), first, e') = >>=-eq-ok (decode_field (x ∷ xs)) _ e in
    let (gs, later, e'') = >>=-eq-ok (decode_loop fuel rest) _ e' in
    let (whole, bytes) = encode_field-decode_field (x ∷ xs) f rest b first in
    sym (ap encode_fields (ok-injective e''))
    ∙ ap (λ r. encode_field f ++ r) (encode_fields-decode_loop fuel rest gs bytes later)
    ∙ whole

-- A payload of bytes that is accepted is the encoding of the fields that were decoded from it, so
-- no two payloads decode to the same fields.
pub encode_fields-decode_fields :
    (payload : Text) (fs : List Field)
    → All IsByte payload
    → decode_fields payload ≡ ok fs
    → encode_fields fs ≡ payload
unfolding decode_fields
encode_fields-decode_fields payload fs b e =
    encode_fields-decode_loop (length payload) payload fs b e
