-- ===== src/Tlv.antt =====
-- internal/protocol/tlv/tlv.go: typed fields with a seven-byte header, and the payload they make.
-- A slice of bytes is a list of numbers; a field's id is a uint16, its type a uint8.
pub mod RoundTrip
pub mod Canonical
mod Tests
use edgectl.Prelude.{
  ℕ, zero, suc, ◌+◌, ◌%◌, ◌^◌, ◌<◌, ◌≡◌, Bool, true, false, List, [], ◌∷◌, ◌++◌, length, take, drop,
  All, Text, ltb, leb, ◌==◌, if◌then◌else◌, Result, ok, err, ◌>>=◌, put_be, get_be, IsByte, Option,
  none, some, not,
}

abbrev pub header_len : ℕ
header_len = 7

abbrev pub type_u32 : ℕ
type_u32 = 3

abbrev pub type_u64 : ℕ
type_u64 = 4

abbrev pub type_string : ℕ
type_string = 6

abbrev pub type_bytes : ℕ
type_bytes = 7

pub record Field : Type 0 where
  pub id : ℕ
  pub typ : ℕ
  pub value : Text

-- `out_of_fuel` is no Go error: it marks the decoder's loop cut short.
pub data TlvError : Type 0 where
  short_field_header short_field_value out_of_fuel : TlvError
  type_mismatch : ℕ → ℕ → ℕ → TlvError
  invalid_u32_length : ℕ → TlvError

unfoldable pub encode_field : Field → Text
encode_field f = put_be 2 f.id ++ f.typ ∷ (put_be 4 (length f.value % 2 ^ 32) ++ f.value)

unfoldable pub encode_fields : List Field → Text
encode_fields [] = []
encode_fields (f ∷ fs) = encode_field f ++ encode_fields fs

-- The `typeID` byte `payload[i+2]`; the header's length is tested before.
byte_at : ℕ → Text → ℕ
byte_at n [] = 0
byte_at zero (b ∷ bs) = b
byte_at (suc n) (b ∷ bs) = byte_at n bs

-- One round of the loop, at `payload[i:]`: the field and what follows it.
unfoldable pub decode_field : Text → Result TlvError (Field × Text)
unfolding byte_at
decode_field payload =
    if ltb (length payload) header_len
    then err short_field_header
    else let id = get_be (take 2 payload) in
      let typ = byte_at 2 payload in
      let l = get_be (take 4 (drop 3 payload)) in
      let rest = drop header_len payload in
      if ltb (length rest % 2 ^ 32) l
      then err short_field_value
      else ok (record { id = id; typ = typ; value = take l rest }, drop l rest)

unfoldable pub decode_loop : ℕ → Text → Result TlvError (List Field)
decode_loop fuel [] = ok []
decode_loop zero (b ∷ bs) = err out_of_fuel
decode_loop (suc fuel) (b ∷ bs) = do
  (f, rest) ← decode_field (b ∷ bs)
  fs ← decode_loop fuel rest
  ok (f ∷ fs)

-- Each round takes seven bytes at least, so one round for each byte is enough.
unfoldable pub decode_fields : Text → Result TlvError (List Field)
decode_fields payload = decode_loop (length payload) payload

-- The first field with the id.
unfoldable pub get_field : List Field → ℕ → Option Field
get_field [] id = none
get_field (f ∷ fs) id = if f.id == id then some f else get_field fs id

unfoldable pub must_type : Field → ℕ → Result TlvError (Unit {0})
must_type f expected = if f.typ == expected then ok tt else err (type_mismatch f.id f.typ expected)

unfoldable pub u32_from_bytes : Text → Result TlvError ℕ
u32_from_bytes b = if length b == 4 then ok (get_be b) else err (invalid_u32_length (length b))

-- What the Go types say of a field: its words fit, and its length fits the header's uint32.
pub record IsWire (f : Field) : Type 0 where
  pub id_fits : f.id < 2 ^ 16
  pub length_fits : length f.value < 2 ^ 32
