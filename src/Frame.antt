-- ===== src/Frame.antt =====
-- internal/protocol/frame/frame.go: the 32-byte header, and one framed message on a stream.
-- Words are numbers below the width of their Go type. A reader is the bytes it still has, then EOF;
-- a writer is a buffer, which does not fail. `flags &^ 7` is `flags / 8 * 8` and bit 0 is `% 2`.
pub mod HeaderCodec
pub mod RoundTrip
pub mod Oversize
mod Tests
use edgectl.Prelude.{
  ℕ, ◌+◌, ◌-◌, ◌*◌, ◌/◌, ◌%◌, ◌^◌, ◌<◌, Bool, not, ◌&&◌, List, [], ◌∷◌, ◌++◌, length, take, drop,
  Text, ltb, ◌==◌, if◌then◌else◌, Result, ok, err, ◌>>=◌, ◌>>◌, put_be, get_be,
}

abbrev pub fixed_header_len : ℕ
fixed_header_len = 32

abbrev pub protocol_magic : ℕ
protocol_magic = 0xEDCE1001

abbrev pub protocol_version : ℕ
protocol_version = 1

abbrev pub flag_is_response : ℕ
flag_is_response = 2

pub record Header : Type 0 where
  pub magic : ℕ
  pub version : ℕ
  pub header_len : ℕ
  pub message_id : ℕ
  pub message_type : ℕ
  pub flags : ℕ
  pub payload_len : ℕ

pub record Frame : Type 0 where
  pub header : Header
  pub auth : Text
  pub payload : Text

pub record Limits : Type 0 where
  pub max_auth_bytes : ℕ
  pub max_payload_bytes : ℕ

unfoldable pub default_limits : Limits
default_limits = record { max_auth_bytes = 64 * 1024; max_payload_bytes = 8 * 1024 * 1024 }

pub data FrameError : Type 0 where
  short_header header_len_too_small header_len_mismatch payload_too_large auth_too_large :
      FrameError
  invalid_header_length unsupported_magic unsupported_version unsupported_flags : ℕ → FrameError
  eof unexpected_eof : FrameError

unfoldable pub encode_header : Header → Text
encode_header h =
    put_be 4 h.magic
    ++ (put_be 2 h.version
        ++ (put_be 2 h.header_len
            ++ (put_be 8 h.message_id
                ++ (put_be 4 h.message_type ++ (put_be 4 h.flags ++ put_be 8 h.payload_len)))))

-- b[lo:lo+n]
abbrev pub slice : ℕ → ℕ → Text → Text
slice lo n b = take n (drop lo b)

-- `flags &^ SupportedFlags`
abbrev pub unsupported : ℕ → ℕ
unsupported flags = flags / 8 * 8

-- The fields of the header, before they are looked at.
unfoldable pub parse_header : Text → Header
parse_header b = record {
  magic = get_be (slice 0 4 b);
  version = get_be (slice 4 2 b);
  header_len = get_be (slice 6 2 b);
  message_id = get_be (slice 8 8 b);
  message_type = get_be (slice 16 4 b);
  flags = get_be (slice 20 4 b);
  payload_len = get_be (slice 24 8 b);
}

-- The checks that `DecodeHeader` makes.
unfoldable pub check_header : Header → Result FrameError Header
check_header h =
    if not (h.magic == protocol_magic)
    then err (unsupported_magic h.magic)
    else if not (h.version == protocol_version)
    then err (unsupported_version h.version)
    else if not (unsupported h.flags == 0)
    then err (unsupported_flags h.flags)
    else ok h

unfoldable pub decode_header : Text → Result FrameError Header
decode_header b =
    if not (length b == fixed_header_len)
    then err (invalid_header_length (length b))
    else check_header (parse_header b)

-- io.ReadFull: EOF if nothing was there, ErrUnexpectedEOF if it ended inside.
unfoldable pub read_full : ℕ → Text → Result FrameError (Text × Text)
read_full n input =
    if ltb (length input) n
    then err (if length input == 0 then eof else unexpected_eof)
    else ok (take n input, drop n input)

-- The length checks between the header and the body; the length of the auth bytes.
unfoldable pub check_lengths : Limits → Header → Result FrameError ℕ
check_lengths limits h =
    if ltb h.header_len fixed_header_len
    then err header_len_too_small
    else let auth_len = h.header_len - fixed_header_len in
      if not (h.flags % 2 == 0) && auth_len == 0
      then err header_len_mismatch
      else if ltb limits.max_auth_bytes auth_len
      then err auth_too_large
      else if ltb limits.max_payload_bytes h.payload_len
      then err payload_too_large
      else ok auth_len

-- Reads no byte where none is wanted.
unfoldable pub read_some : ℕ → Text → Result FrameError (Text × Text)
unfolding read_full
read_some n input = if ltb 0 n then read_full n input else ok ([], input)

-- A frame, and the bytes that the reader still has.
unfoldable pub read_frame : Limits → Text → Result FrameError (Frame × Text)
read_frame limits input = if ltb (length input) fixed_header_len then err short_header else do
  h ← decode_header (take fixed_header_len input)
  auth_len ← check_lengths limits h
  (auth, body) ← read_some auth_len (drop fixed_header_len input)
  (payload, rest) ← read_some h.payload_len body
  ok (record { header = h; auth = auth; payload = payload }, rest)

-- The header that is written: defaults, lengths and the auth flag. `uint16` wraps.
unfoldable pub complete_header : Frame → Header
complete_header f =
    let h = f.header in
    record h {
      magic = if h.magic == 0 then protocol_magic else h.magic;
      version = if h.version == 0 then protocol_version else h.version;
      header_len = (fixed_header_len + length f.auth % 2 ^ 16) % 2 ^ 16;
      payload_len = length f.payload;
      flags = if ltb 0 (length f.auth) then h.flags / 2 * 2 + 1 else h.flags / 2 * 2;
    }

unfoldable pub write_frame : Limits → Frame → Result FrameError Text
write_frame limits f =
    if ltb limits.max_auth_bytes (length f.auth)
    then err auth_too_large
    else if ltb limits.max_payload_bytes (length f.payload)
    then err payload_too_large
    else if not (unsupported f.header.flags == 0)
    then err (unsupported_flags f.header.flags)
    else ok (encode_header (complete_header f) ++ (f.auth ++ f.payload))

-- Words that fit the Go types of the header.
pub record IsHeader (h : Header) : Type 0 where
  pub magic_fits : h.magic < 2 ^ 32
  pub version_fits : h.version < 2 ^ 16
  pub header_len_fits : h.header_len < 2 ^ 16
  pub message_id_fits : h.message_id < 2 ^ 64
  pub message_type_fits : h.message_type < 2 ^ 32
  pub flags_fits : h.flags < 2 ^ 32
  pub payload_len_fits : h.payload_len < 2 ^ 64
