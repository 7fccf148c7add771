-- ===== src/Frame/Tests.antt =====
-- A concrete frame, and the theorems of this component at concrete inputs.
use edgectl.Prelude.{
  ◌≡◌, refl, [], ◌∷◌, ◌++◌, codes, Text, ok, err, arith, put_be, ℕ, zero, suc, length,
}
use edgectl.Frame.{
  Frame, default_limits, encode_header, write_frame, read_frame, complete_header,
  header_len_mismatch,
}
use edgectl.Frame.RoundTrip.{IsSendable, read_frame-write_frame}
use edgectl.Frame.Oversize.{read_frame-oversize, refusal}

abbrev hello : Frame
hello = record {
  header = record {
    magic = 0;
    version = 0;
    header_len = 0;
    message_id = 7;
    message_type = 5;
    flags = 2;
    payload_len = 0;
  };
  auth = [];
  payload = codes "hi";
}

abbrev hello_bytes : Text
hello_bytes =
    0xED ∷ 0xCE ∷ 0x10 ∷ 0x01 ∷ 0 ∷ 1 ∷ 0 ∷ 32 ∷ 0 ∷ 0 ∷ 0 ∷ 0 ∷ 0 ∷ 0 ∷ 0 ∷ 7 ∷ 0 ∷ 0 ∷ 0 ∷ 5 ∷ 0
    ∷ 0 ∷ 0 ∷ 2 ∷ 0 ∷ 0 ∷ 0 ∷ 0 ∷ 0 ∷ 0 ∷ 0 ∷ 2 ∷ 104 ∷ 105 ∷ []

write_hello : write_frame default_limits hello ≡ ok hello_bytes
unfolding write_frame default_limits encode_header complete_header put_be
write_hello = refl

hello-IsSendable : IsSendable hello.header
hello-IsSendable = omega arith

read_frame-write_frame_example :
    read_frame default_limits (hello_bytes ++ 9 ∷ [])
    ≡ ok (record hello { header = complete_header hello }, 9 ∷ [])
unfolding default_limits
read_frame-write_frame_example =
    read_frame-write_frame default_limits hello hello_bytes (9 ∷ []) hello-IsSendable (omega arith)
      (omega arith) write_hello

zeros : ℕ → Text
zeros zero = []
zeros (suc n) = 0 ∷ zeros n

length-zeros : (n : ℕ) → length (zeros n) ≡ n
unfolding zeros
length-zeros zero = refl
length-zeros (suc n) = omega (arith, length-zeros n)

abbrev padded : Frame
padded = record hello { auth = zeros 65536 }

abbrev padded_bytes : Text
padded_bytes = encode_header (complete_header padded) ++ (zeros 65536 ++ codes "hi")

write_padded : write_frame default_limits padded ≡ ok padded_bytes
unfolding write_frame default_limits
write_padded = ground (arith, length-zeros 65536)

read_frame-oversize_example : read_frame default_limits (padded_bytes ++ []) ≡ err (refusal padded)
read_frame-oversize_example =
    read_frame-oversize default_limits padded padded_bytes [] hello-IsSendable
      (unfold default_limits in omega arith) (omega (arith, length-zeros 65536))
      (omega (arith, length-zeros 65536)) write_padded

-- The default limits allow the 65536 bytes, and the reader takes them for none.
padded-refusal : refusal padded ≡ header_len_mismatch
padded-refusal = ground (arith, length-zeros 65536)
