-- ===== src/Frame/Oversize.antt =====
-- Frames that `WriteFrame` accepts and `ReadFrame` refuses: `uint16(authLen)` wraps.
use edgectl.Prelude.{
  ◌≤◌, ◌<◌, ◌^◌, ◌≡◌, ◌∙◌, ◌++◌, length, Text, ok, err, arith, append_assoc, ltb, if◌then◌else◌,
}
use edgectl.Frame.{
  Frame, Limits, FrameError, header_len_too_small, header_len_mismatch, check_lengths, read_frame,
  complete_header, write_frame,
}
use edgectl.Frame.RoundTrip.{
  IsSendable, write_frame-Written, read_frame_header, complete_header-IsHeader,
  check_header-complete_header,
}

-- The error that the reader answers with.
abbrev pub refusal : Frame → FrameError
refusal f = if ltb (length f.auth) (2 ^ 16) then header_len_too_small else header_len_mismatch

check_lengths-oversize :
    (limits : Limits) (f : Frame)
    → 65504 ≤ length f.auth
    → length f.auth ≤ 65536
    → check_lengths limits (complete_header f) ≡ err (refusal f)
unfolding check_lengths complete_header
check_lengths-oversize limits f lo hi = ground arith

-- Every frame with 65504 to 65536 auth bytes that is written, as the default limits allow, is
-- refused by the reader under the same limits. Magic and version are 0 or the protocol's, the other
-- header fields fit their words, and the payload limit 64 bits.
pub read_frame-oversize :
    (limits : Limits) (f : Frame) (out rest : Text)
    → IsSendable f.header
    → limits.max_payload_bytes < 2 ^ 64
    → 65504 ≤ length f.auth
    → length f.auth ≤ 65536
    → write_frame limits f ≡ ok out
    → read_frame limits (out ++ rest) ≡ err (refusal f)
read_frame-oversize limits f out rest s m lo hi e =
    let w = write_frame-Written limits f out e in
    rw (w.bytes, append_assoc)
      (read_frame_header limits (complete_header f) ((f.auth ++ f.payload) ++ rest)
          (complete_header-IsHeader limits f s (omega (arith, w.payload_fits)))
        ∙ rw
            (check_header-complete_header f s w.flags_known, check_lengths-oversize limits f lo hi))
