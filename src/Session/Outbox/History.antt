-- ===== src/Session/Outbox/History.antt =====
-- What `Get` answers after each operation.
use edgectl.Prelude.{
  ℕ, ◌≡◌, Bool, Text, is_empty, trim_space, lookup, text_eq, none, some, if◌then◌else◌, same,
  same_iff, arith, lookup-insert, lookup-remove, Option-cases, inl, inr, ◌&&◌, not,
}
use mathlib.Core.Option
use edgectl.Session.Outbox.{
  PendingEvent, EventOutbox, upsert, attempted, mark_attempt, discard, get,
}

-- Two event ids name one entry if they are the same but for surrounding spaces.
abbrev pub names_same : Text → Text → Bool
names_same a b = same (trim_space a) (trim_space b)

-- After an upsert the item's id, with or without spaces, names the item, unless it is blank; every
-- other id names what it named before.
pub get-upsert :
    (o : EventOutbox) (item : PendingEvent) (id : Text)
    → get (upsert o item) id ≡ (
        if not (is_empty (trim_space item.event_id)) && names_same item.event_id id
        then some item
        else get o id)
unfolding get upsert
get-upsert o item id =
    ground (arith, lookup-insert (trim_space item.event_id) (trim_space id) item o)

-- After a removal the id names nothing, and every other id what it named before.
pub get-discard :
    (o : EventOutbox) (gone id : Text)
    → get (discard o gone) id ≡ (if names_same gone id then none else get o id)
unfolding get discard
get-discard o gone id = lookup-remove (trim_space gone) (trim_space id) o

-- An attempt on a known id counts it, records time and error, and returns the new entry; on an
-- unknown id it changes nothing and returns nothing. Other ids keep their entries.
pub get-mark_attempt :
    (o : EventOutbox) (tried : Text) (at : ℕ) (last_error id : Text)
    → let (o', answer) = mark_attempt o tried at last_error in
      (answer ≡ Option.map (attempted at last_error) (get o tried))
      × (get o' id ≡ (if names_same tried id then answer else get o id))
unfolding get mark_attempt
get-mark_attempt o tried at last_error id = elim (Option-cases (lookup (trim_space tried) o)) [
  | inl missing ↦ (
    rw (missing, mark_attempt),
    rw (missing, mark_attempt)
        (ground (arith, missing, same_iff (trim_space tried) (trim_space id))),
  )
  | inr (item, found) ↦ (
    rw (found, mark_attempt),
    rw (found, mark_attempt)
        (lookup-insert (trim_space tried) (trim_space id) (attempted at last_error item) o),
  )
]
