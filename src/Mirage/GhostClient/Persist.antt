-- ===== src/Mirage/GhostClient/Persist.antt =====
-- Persist sends a command without an id, which the encoder of commands does not take.
use edgectl.Prelude.{
  ◌≡◌, refl, [], Text, codes, if◌then◌else◌, is_empty, trim_space, ok, err, Result-cases, inl, inr,
  arith,
}
use edgectl.Session
use edgectl.Session.{SessionError, missing}
use edgectl.Session.Command.{Json, encode_command_frame, validate_command}
use edgectl.Mirage.GhostClient.{
  ControlWire, ClientError, GhostAdminCommand, wire_error, outgoing_command, execute_through,
  execute_admin_command, persist_command, persist,
}

persist_command_id :
    (selector key value : Text) (c : GhostAdminCommand)
    → persist_command selector key value ≡ ok c
    → c.command_id ≡ []
unfolding persist_command
persist_command_id selector key value c h = ground arith

encode-nameless :
    (json : Json) (c : GhostAdminCommand)
    → c.command_id ≡ []
    → encode_command_frame json 1 (outgoing_command c) ≡ err (missing "command_id")
unfolding encode_command_frame validate_command outgoing_command Session.require trim_space
encode-nameless json c h = rw h refl

module _ {W : Type 0} (wire : ControlWire W) (admin_addr : Text) (json : Json) where
  execute-nameless :
      (w : W) (c : GhostAdminCommand)
      → c.command_id ≡ []
      → execute_admin_command wire admin_addr json w c
        ≡ (w, err (wire_error (missing "command_id")))
  unfolding execute_admin_command execute_through
  execute-nameless w c h = rw (encode-nameless json c h, execute_through) refl

  -- Persisting a buildlog entry fails, whatever its key and value are, through whichever seed, and before
  -- anything is sent.
  pub persist_fails :
      (selector key value : Text) (w : W)
      → (e : ClientError) × (persist wire admin_addr json selector key value w ≡ (w, err e))
  unfolding persist
  persist_fails selector key value w =
      let used = if is_empty (trim_space selector) then codes "seed.fs" else trim_space selector in
      elim (Result-cases (persist_command used key value)) [
        | inr (e, refused) ↦ rw (refused, persist) (e, refl)
        | inl (c, built) ↦
            rw (built, persist)
              (rw (execute-nameless w c (persist_command_id used key value c built)) (_, refl))
      ]
