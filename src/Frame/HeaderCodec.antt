-- ===== src/Frame/HeaderCodec.antt =====
-- The fixed header: `DecodeHeader` after `EncodeHeader`.
use edgectl.Prelude.{◌≡◌, refl, ◌++◌, length, take, drop, Text, put_be, get_be-put_be}
use edgectl.Frame.{
  Header, IsHeader, encode_header, parse_header, check_header, decode_header, fixed_header_len,
}

pub length-encode_header : (h : Header) → length (encode_header h) ≡ fixed_header_len
unfolding encode_header put_be
length-encode_header h = refl

pub take-encode_header :
    (h : Header) (rest : Text) → take fixed_header_len (encode_header h ++ rest) ≡ encode_header h
unfolding encode_header put_be
take-encode_header h rest = refl

pub drop-encode_header :
    (h : Header) (rest : Text) → drop fixed_header_len (encode_header h ++ rest) ≡ rest
unfolding encode_header put_be
drop-encode_header h rest = refl

pub parse_header-encode_header : (h : Header) → IsHeader h → parse_header (encode_header h) ≡ h
unfolding parse_header encode_header put_be
parse_header-encode_header h w i = record {
  magic = get_be-put_be 4 h.magic w.magic_fits i;
  version = get_be-put_be 2 h.version w.version_fits i;
  header_len = get_be-put_be 2 h.header_len w.header_len_fits i;
  message_id = get_be-put_be 8 h.message_id w.message_id_fits i;
  message_type = get_be-put_be 4 h.message_type w.message_type_fits i;
  flags = get_be-put_be 4 h.flags w.flags_fits i;
  payload_len = get_be-put_be 8 h.payload_len w.payload_len_fits i;
}

-- Of a header whose words fit, the decoder reads back each field, and then checks it.
pub decode_header-encode_header :
    (h : Header) → IsHeader h → decode_header (encode_header h) ≡ check_header h
unfolding decode_header
decode_header-encode_header h w =
    rw (decode_header, length-encode_header, parse_header-encode_header h w)
