-- ===== src/Session/Outbox.antt =====
-- outbox.go: the events that wait for an acknowledgement, keyed by event id. The mutex makes each
-- method one step. Times are numbers.
pub mod History
pub mod Replay
use edgectl.Prelude.{
  ℕ, ◌+◌, Text, is_empty, trim_space, Map, lookup, insert, remove, text_eq, Option, none, some,
  if◌then◌else◌, [], List, map, sort_by,
}

pub record PendingEvent : Type 0 where
  pub event_id : Text
  pub command_id : Text
  pub ghost_id : Text
  pub attempts : ℕ
  pub queued_at : ℕ
  pub last_attempt_at : ℕ
  pub ack_deadline_at : ℕ
  pub last_error : Text

abbrev pub EventOutbox : Type 0
EventOutbox = Map Text PendingEvent

abbrev pub new_event_outbox : EventOutbox
new_event_outbox = []

unfoldable pub upsert : EventOutbox → PendingEvent → EventOutbox
upsert o item = let key = trim_space item.event_id in if is_empty key then o else insert key item o

-- `item.Attempts++` on a Go int is left unbounded.
unfoldable pub attempted : ℕ → Text → PendingEvent → PendingEvent
attempted at last_error item = record item {
  attempts = item.attempts + 1;
  last_attempt_at = at;
  last_error = trim_space last_error;
}

unfoldable pub mark_attempt : EventOutbox → Text → ℕ → Text → EventOutbox × Option PendingEvent
mark_attempt o event_id at last_error =
    let key = trim_space event_id in
    elim (lookup key o) [
      | none ↦ (o, none)
      | some item ↦
          (insert key (attempted at last_error item) o, some (attempted at last_error item))
    ]

unfoldable pub discard : EventOutbox → Text → EventOutbox
discard o event_id = remove (trim_space event_id) o

unfoldable pub get : EventOutbox → Text → Option PendingEvent
get o event_id = lookup (trim_space event_id) o

unfoldable pub list : EventOutbox → List PendingEvent
unfolding sort_by
list o = sort_by (λ item. item.event_id) (map (λ entry. entry.1) o)
