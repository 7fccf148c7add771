-- ===== src/Session/Outbox/Replay.antt =====
-- The outbox as a function from event ids to the events that wait, over every sequence of operations.
use edgectl.Prelude.{
  ℕ, List, [], ◌∷◌, Text, is_empty, trim_space, Option, none, some, if◌then◌else◌, ◌&&◌, not,
}
use mathlib.Core.Option
use edgectl.Session.Outbox.{PendingEvent, EventOutbox, upsert, attempted, mark_attempt, discard}
use edgectl.Session.Outbox.History.{names_same}

pub data Op : Type 0 where
  queues : PendingEvent → Op
  attempts : Text → ℕ → Text → Op
  settles : Text → Op

abbrev pub View : Type 0
View = Text → Option PendingEvent

unfoldable pub apply : EventOutbox → Op → EventOutbox
apply o (queues item) = upsert o item
apply o (attempts id at last_error) = (mark_attempt o id at last_error).0
apply o (settles id) = discard o id

-- Ids that differ only in surrounding spaces name one event, and a blank id none.
abbrev pub spec_apply : View → Op → View
spec_apply f (queues item) id =
    if not (is_empty (trim_space item.event_id)) && names_same item.event_id id
    then some item
    else f id
spec_apply f (attempts tried at last_error) id =
    if names_same tried id then Option.map (attempted at last_error) (f tried) else f id
spec_apply f (settles gone) id = if names_same gone id then none else f id

unfoldable pub replay : EventOutbox → List Op → EventOutbox
replay o [] = o
replay o (op ∷ ops) = replay (apply o op) ops

unfoldable pub spec_replay : View → List Op → View
spec_replay f [] = f
spec_replay f (op ∷ ops) = spec_replay (spec_apply f op) ops
