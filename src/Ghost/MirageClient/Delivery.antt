-- ===== src/Ghost/MirageClient/Delivery.antt =====
-- What SendEventWithAck leaves in the outbox.
use edgectl.Prelude.{ℕ, suc, ◌<◌, ◌≡◌, Text, [], none, some, Result, err}
use edgectl.Session.Event.{Event}
use edgectl.Session.Ack.{EventAck}
use edgectl.Session.Outbox.{EventOutbox, PendingEvent, get, mark_attempt}
use edgectl.Ghost.MirageClient.Answers.{Acked, Unanswered}
use edgectl.Ghost.MirageClient.{
  Wire, MirageSession, ClientError, ack_timeout, wait_cancelled, answered, send_event_once,
}

module _ {W : Type 0} (wire : Wire W) where
  -- What the event waits for, for the entry `item` that the outbox had of it.
  pub record Waits (item : PendingEvent) (o : EventOutbox) (id : Text) : Type 0 where
    pub entry : PendingEvent
    pub found : get o id ≡ some entry
    pub tried : item.attempts < entry.attempts
    pub queued : entry.queued_at ≡ item.queued_at
    pub deadline : entry.ack_deadline_at ≡ item.ack_deadline_at

  -- The session at the start of an attempt.
  abbrev pub begun : Event → W → MirageSession → MirageSession
  begun event w s = record s { outbox = (mark_attempt s.outbox event.event_id (wire.clock w) []).0 }

  module _ (event : Event) where
    -- A delivery from the attempt, the state and the session given comes to an attempt at `v` and `t`:
    -- all before were unanswered, and waited after.
    pub data Tried (v : W) (t : MirageSession) : ℕ → W → MirageSession → Type 0 where
      this_one : {attempt : ℕ} {s : MirageSession} → t ≡ begun event v s → Tried v t attempt v s
      a_later :
          {attempt : ℕ} {w : W} {s s' : MirageSession}
          → Unanswered wire event w (begun event w s)
          → (s'.reader ≡ (send_event_once wire w (begun event w s) event).1.reader)
          → Tried v t
              (suc attempt)
              (wire.wait attempt (send_event_once wire w (begun event w s) event).0).0
              s'
          → Tried v t attempt w s

    -- How a delivery ends, for the entry `item` that the outbox had of the event.
    pub data Ends (item : PendingEvent) (attempt : ℕ) (w : W) (s : MirageSession) (o : EventOutbox)
        : Result ClientError EventAck → Type 0 where
      was_answered :
          (v : W) (t : MirageSession) (ack : EventAck)
          → Tried v t attempt w s
          → Acked wire event v t ack
          → get o event.event_id ≡ none
          → Ends item attempt w s o (answered ack)
      timed_out :
          (v : W) (t : MirageSession)
          → Tried v t attempt w s
          → Unanswered wire event v t
          → Waits item o event.event_id
          → Ends item attempt w s o (err ack_timeout)
      was_cancelled :
          (v : W) (t : MirageSession) (reason : Text)
          → Tried v t attempt w s
          → Unanswered wire event v t
          → Waits item o event.event_id
          → Ends item attempt w s o (err (wait_cancelled reason))
