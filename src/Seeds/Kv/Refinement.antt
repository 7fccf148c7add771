-- ===== src/Seeds/Kv/Refinement.antt =====
-- The store as a function from keys to values, which is all that a client of kv/seed.go can see.
use edgectl.Prelude.{
  ◌≡◌, refl, fun_ext, ap, ap₂, ◌∙◌, List, [], ◌∷◌, ◌++◌, if◌then◌else◌, Bool-cases, Text, codes,
  same, is_empty, trim_space, lookup, insert, remove, lookup-insert, lookup-remove, text_eq, Option,
  none, some, Option-cases, inl, inr, map,
}
use edgectl.Session.Command.{Args}
use edgectl.Seeds.Replies.{Reply, arg, ok_result, error_result}
use edgectl.Seeds.Kv.{Store, put, get, delete, execute, missing_key}

-- What a client asks, as the seed takes it: the action may stand among spaces, and so may the key.
pub data Op : Type 0 where
  puts : Text → Text → Op
  gets deletes : Text → Op

abbrev pub request : Op → Text × Args
request (puts k v) = (codes "put", (codes "key", k) ∷ (codes "value", v) ∷ [])
request (gets k) = (codes "get", (codes "key", k) ∷ [])
request (deletes k) = (codes "delete", (codes "key", k) ∷ [])

abbrev pub View : Type 0
View = Text → Option Text

-- A function, changed at one key.
abbrev pub update : View → Text → Option Text → View
update f k w j = if same k j then w else f j

-- The answers of an abstract store.
pub data Answer : Type 0 where
  rejected : Answer
  missing stored deleted : Text → Answer
  found : Text → Answer

abbrev pub ask : Option Text → Text → Answer
ask none k = missing k
ask (some v) k = found v

-- One step of the abstract store, on a trimmed key.
abbrev pub spec_step : View → Op → View × Answer
spec_step f (puts k v) =
    let key = trim_space k in
    if is_empty key then (f, rejected) else (update f key (some v), stored key)
spec_step f (gets k) =
    let key = trim_space k in if is_empty key then (f, rejected) else (f, ask (f key) key)
spec_step f (deletes k) =
    let key = trim_space k in
    if is_empty key then (f, rejected) else (update f key none, deleted key)

-- How the seed words an answer.
abbrev pub reply : Answer → Reply
reply rejected = missing_key
reply (missing k) =
    (error_result (codes "missing key=" ++ k), some (codes "seed.kv: missing key=" ++ k))
reply (stored k) = (ok_result (codes "ok put key=" ++ (k ++ 10 ∷ [])), none)
reply (deleted k) = (ok_result (codes "ok delete key=" ++ (k ++ 10 ∷ [])), none)
reply (found v) = (ok_result (v ++ 10 ∷ []), none)

abbrev pub view : Store → View
view s k = lookup k s

unfoldable pub run : (Text → Text) → Store → List Op → Store × List Reply
run quote s [] = (s, [])
run quote s (op ∷ ops) =
    let (action, args) = request op in
    let (s', r) = execute quote action args s in let (t, rs) = run quote s' ops in (t, r ∷ rs)

unfoldable pub spec_run : View → List Op → View × List Answer
spec_run f [] = (f, [])
spec_run f (op ∷ ops) =
    let (f', a) = spec_step f op in let (g, as') = spec_run f' ops in (g, a ∷ as')

view-insert : (k v : Text) (s : Store) → view (insert k v s) ≡ update (view s) k (some v)
view-insert k v s = fun_ext (λ j. lookup-insert k j v s)

view-remove : (k : Text) (s : Store) → view (remove k s) ≡ update (view s) k none
view-remove k s = fun_ext (λ j. lookup-remove k j s)

-- One step of the seed is one of the abstract store.
abbrev IsStep : Store → Store × Reply → View × Answer → Type 0
IsStep s (s', r) (f', a) = (view s' ≡ f') × (r ≡ reply a)

put_refines :
    (s : Store) (k v : Text)
    → IsStep s (put s ((codes "key", k) ∷ (codes "value", v) ∷ [])) (spec_step (view s) (puts k v))
unfolding put arg lookup same
put_refines s k v = elim (Bool-cases (is_empty (trim_space k))) [
  | inl e ↦ rw (put, e) (refl, refl)
  | inr e ↦ rw (put, e) (view-insert (trim_space k) v s, refl)
]

get_refines :
    (s : Store) (k : Text) → IsStep s (get s ((codes "key", k) ∷ [])) (spec_step (view s) (gets k))
unfolding get arg lookup same
get_refines s k = elim (Bool-cases (is_empty (trim_space k))) [
  | inl e ↦ rw (get, e) (refl, refl)
  | inr e ↦ elim (Option-cases (lookup (trim_space k) s)) [
    | inl m ↦ rw (get, e, m) (refl, refl)
    | inr (v, m) ↦ rw (get, e, m) (refl, refl)
  ]
]

delete_refines :
    (s : Store) (k : Text)
    → IsStep s (delete s ((codes "key", k) ∷ [])) (spec_step (view s) (deletes k))
unfolding delete arg lookup same
delete_refines s k = elim (Bool-cases (is_empty (trim_space k))) [
  | inl e ↦ rw (delete, e) (refl, refl)
  | inr e ↦ rw (delete, e) (view-remove (trim_space k) s, refl)
]

execute-spec_step :
    (quote : Text → Text) (s : Store) (op : Op)
    → IsStep s (execute quote (request op).0 (request op).1 s) (spec_step (view s) op)
unfolding execute same trim_space
execute-spec_step quote s (puts k v) = put_refines s k v
execute-spec_step quote s (gets k) = get_refines s k
execute-spec_step quote s (deletes k) = delete_refines s k

-- Any sequence of puts, gets and deletes answers as the abstract store does, and leaves a store that reads as the abstract one: a key is the same with spaces around it, a blank key is refused, and a value is the one that was put last.
pub run_refines :
    (quote : Text → Text) (s : Store) (ops : List Op)
    → let (s', replies) = run quote s ops in
      let (f, answers) = spec_run (view s) ops in (view s' ≡ f) × (replies ≡ map reply answers)
unfolding run spec_run
run_refines quote s [] = (refl, refl)
run_refines quote s (op ∷ ops) =
    let (seen, answered) = execute-spec_step quote s op in
    let (seen', answered') =
      run_refines quote (execute quote (request op).0 (request op).1 s).0 ops in
    (
      seen' ∙ ap (λ f. (spec_run f ops).0) seen,
      ap₂ ◌∷◌ answered (answered' ∙ ap (λ f. map reply (spec_run f ops).1) seen),
    )
