-- ===== src/Frame/RoundTrip.antt =====
-- Reading what `WriteFrame` wrote.
use edgectl.Prelude.{
  ℕ, ◌+◌, ◌^◌, ◌≤◌, ◌<◌, ◌≡◌, ◌⊎◌, refl, ◌∙◌, [], ◌++◌, length, Text, ok, arith, append_assoc,
  length-append, take-append, drop-append, ltb-false, ◌>>=◌,
}
use edgectl.Frame.{
  Header, Frame, Limits, IsHeader, encode_header, check_header, read_full, read_some, check_lengths,
  read_frame, complete_header, write_frame, protocol_magic, protocol_version, fixed_header_len,
  unsupported,
}
use edgectl.Frame.HeaderCodec.{
  length-encode_header, take-encode_header, drop-encode_header, decode_header-encode_header,
}

-- What a caller may leave open in a header: zero stands for the protocol's magic and version.
pub record IsSendable (h : Header) : Type 0 where
  pub words : IsHeader h
  pub magic_known : (h.magic ≡ 0) ⊎ (h.magic ≡ protocol_magic)
  pub version_known : (h.version ≡ 0) ⊎ (h.version ≡ protocol_version)

-- What a write that succeeded has checked, and what it wrote.
pub record Written (limits : Limits) (f : Frame) (out : Text) : Type 0 where
  pub auth_fits : length f.auth ≤ limits.max_auth_bytes
  pub payload_fits : length f.payload ≤ limits.max_payload_bytes
  pub flags_known : unsupported f.header.flags ≡ 0
  pub bytes : out ≡ encode_header (complete_header f) ++ (f.auth ++ f.payload)

pub write_frame-Written :
    (limits : Limits) (f : Frame) (out : Text)
    → write_frame limits f ≡ ok out
    → Written limits f out
unfolding write_frame
write_frame-Written limits f out e = ground arith

pub read_some-append : (n : ℕ) (xs ys : Text) → length xs ≡ n → read_some n (xs ++ ys) ≡ ok (xs, ys)
unfolding read_some read_full
read_some-append n [] ys h = ground arith
read_some-append n xs ys h =
    ground (arith, take-append n xs ys h, drop-append n xs ys h, length-append xs ys)

-- Reading a written header hands its fields to the checks, and the body to the reads.
pub read_frame_header :
    (limits : Limits) (h : Header) (body : Text)
    → IsHeader h
    → read_frame limits (encode_header h ++ body) ≡ (
        check_header h >>= λ g. check_lengths limits g >>= λ n. read_some n body >>= λ (a, more).
        read_some g.payload_len more >>= λ (p, rest).
        ok (record { header = g; auth = a; payload = p }, rest))
unfolding read_frame
read_frame_header limits h body w = rw (
  length-append (encode_header h) body,
  length-encode_header,
  ltb-false (fixed_header_len + length body) fixed_header_len (omega arith),
  take-encode_header,
  drop-encode_header,
  decode_header-encode_header h w,
)

pub complete_header-IsHeader :
    (limits : Limits) (f : Frame)
    → IsSendable f.header
    → length f.payload < 2 ^ 64
    → IsHeader (complete_header f)
unfolding complete_header
complete_header-IsHeader limits f s n = ground arith

pub check_header-complete_header :
    (f : Frame)
    → IsSendable f.header
    → unsupported f.header.flags ≡ 0
    → check_header (complete_header f) ≡ ok (complete_header f)
unfolding check_header complete_header
check_header-complete_header f s k = ground arith

check_lengths-complete_header :
    (limits : Limits) (f : Frame)
    → length f.auth ≤ limits.max_auth_bytes
    → length f.payload ≤ limits.max_payload_bytes
    → length f.auth < 65504
    → check_lengths limits (complete_header f) ≡ ok (length f.auth)
unfolding check_lengths complete_header
check_lengths-complete_header limits f a p small = ground arith

payload_len-complete_header : (f : Frame) → (complete_header f).payload_len ≡ length f.payload
unfolding complete_header
payload_len-complete_header f = refl

-- A frame that was written is read back with its completed header, and nothing behind it is
-- touched. Magic and version are 0 or the protocol's, and the auth bytes are fewer than 65504.
-- The other header fields fit their words, and the payload limit 64 bits.
pub read_frame-write_frame :
    (limits : Limits) (f : Frame) (out rest : Text)
    → IsSendable f.header
    → limits.max_payload_bytes < 2 ^ 64
    → length f.auth < 65504
    → write_frame limits f ≡ ok out
    → read_frame limits (out ++ rest) ≡ ok (record f { header = complete_header f }, rest)
read_frame-write_frame limits f out rest s m small e =
    let w = write_frame-Written limits f out e in
    let h = complete_header f in
    rw (w.bytes, append_assoc, append_assoc)
      (read_frame_header limits h (f.auth ++ (f.payload ++ rest))
          (complete_header-IsHeader limits f s (omega arith))
        ∙ rw (
          check_header-complete_header f s w.flags_known,
          check_lengths-complete_header limits f w.auth_fits w.payload_fits small,
          read_some-append (length f.auth) f.auth (f.payload ++ rest) refl,
          payload_len-complete_header f,
          read_some-append (length f.payload) f.payload rest refl,
        ))
