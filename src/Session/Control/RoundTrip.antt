-- ===== src/Session/Control/RoundTrip.antt =====
-- Reading the lines that control.go writes.
use edgectl.Prelude.{
  ◌≡◌, ◌≤◌, refl, ap, ◌∙◌, [], ◌∷◌, ◌++◌, append_assoc, false, ◌==◌, ltb-false, All, Text, same,
  length, none, some, ok, >>=-eq-ok, ok-injective,
}
use edgectl.Session.Control.{
  Registration, RegistrationAck, Envelope, EnvelopeJson, newline, max_line, read_line, expect,
  write_control_envelope, read_control_envelope, write_registration, read_registration,
  validate_registration, write_registration_ack, read_registration_ack, validate_registration_ack,
  control_type_register, control_type_register_ack,
}

-- A line is read up to its end.
read_line-append :
    (t rest : Text)
    → All (λ c. (c == newline) ≡ false) t
    → read_line (t ++ (newline ∷ rest)) ≡ some (t ++ newline ∷ [], rest)
unfolding read_line
read_line-append [] rest h = refl
read_line-append (c ∷ t) rest (h, hs) = rw (read_line, h, read_line-append t rest hs) refl

module _ (json : EnvelopeJson) where
  read_control_envelope-write :
      (e : Envelope) (rest : Text)
      → json.IsUtf8 e
      → length (write_control_envelope json e) ≤ max_line
      → read_control_envelope json (write_control_envelope json e ++ rest) ≡ ok (e, rest)
  unfolding read_control_envelope write_control_envelope
  read_control_envelope-write e rest u small =
      let line = json.marshal e ++ newline ∷ [] in
      let found : read_line (line ++ rest) ≡ some (line, rest) =
        ap read_line (append_assoc (json.marshal e) (newline ∷ []) rest)
        ∙ read_line-append (json.marshal e) rest (json.one_line e) in
      rw
        (
          read_control_envelope,
          found,
          ltb-false max_line (length line) small,
          json.unmarshal-marshal e u,
        )
        refl

  -- A registration, or an acknowledgement of one, that was written as a line of at most 128 KiB is read back as it was, with the bytes behind the line left, if its strings are valid UTF-8.
  pub read-write_registration :
      (r : Registration) (a : RegistrationAck) (out out' rest : Text)
      → json.IsUtf8 (record { typ = control_type_register; reg = some r; ack = none })
      → json.IsUtf8 (record { typ = control_type_register_ack; reg = none; ack = some a })
      → length out ≤ max_line
      → length out' ≤ max_line
      → write_registration json r ≡ ok out
      → write_registration_ack json a ≡ ok out'
      → (read_registration json (out ++ rest) ≡ ok (r, rest))
        × (read_registration_ack json (out' ++ rest) ≡ ok (a, rest))
  unfolding write_registration read_registration write_registration_ack read_registration_ack expect
      same
  read-write_registration r a out out' rest u u' small small' sent sent' =
      let (_, valid, e) = >>=-eq-ok (validate_registration r) _ sent in
      let (_, valid', e') = >>=-eq-ok (validate_registration_ack a) _ sent' in
      let env : Envelope = record { typ = control_type_register; reg = some r; ack = none } in
      let env' : Envelope = record { typ = control_type_register_ack; reg = none; ack = some a } in
      let is_out : write_control_envelope json env ≡ out = ok-injective e in
      let is_out' : write_control_envelope json env' ≡ out' = ok-injective e' in
      let back = read_control_envelope-write env rest u (rw is_out small) in
      let back' = read_control_envelope-write env' rest u' (rw is_out' small') in
      (rw (← is_out, back, valid) refl, rw (← is_out', back', valid') refl)
