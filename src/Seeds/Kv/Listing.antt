-- ===== src/Seeds/Kv/Listing.antt =====
-- What kv/seed.go lists.
use edgectl.Prelude.{
  ◌≡◌, refl, ◌∙◌, List, [], ◌∷◌, ◌++◌, ◌&&◌, ◌||◌, Bool-cases, Text, codes, same, same_iff,
  same_refl, is_empty, trim_space, lookup, has, member, member-sort_strings, sort_strings, join,
  IsSorted, sort_by-IsSorted, text_eq, none, inl, inr, arith,
}
use edgectl.Session.Command.{Args}
use edgectl.Seeds.Replies.{arg, ok_result}
use edgectl.Seeds.Kv.{Store, keys_with, has_prefix, execute, list}

-- The keys are those that are stored and begin with the prefix.
member-keys_with :
    (prefix k : Text) (s : Store)
    → member k (keys_with prefix s) ≡ (has k s && (is_empty prefix || has_prefix prefix k))
unfolding keys_with has lookup member
member-keys_with prefix k [] = refl
member-keys_with prefix k ((j, v) ∷ s) = elim (Bool-cases (same j k)) [
  | inl e ↦ rw (← (same_iff j k).0 e) (ground (arith, member-keys_with prefix j s, same_refl j))
  | inr e ↦ ground (arith, member-keys_with prefix k s)
]

-- `list` changes nothing and answers, one to a line, names in ascending order: those of the stored keys that begin with the prefix, which is taken without the spaces around it, and no others.
pub execute-list :
    (quote : Text → Text) (args : Args) (s : Store)
    → (names : List Text) × (execute quote (codes "list") args s
        ≡ (s, (ok_result (join (10 ∷ []) names ++ 10 ∷ []), none)))
      × IsSorted (λ t. t) names
      × ((k : Text)
          → member k names ≡ (
              has k s
              && (is_empty (trim_space (arg (codes "prefix") args))
                  || has_prefix (trim_space (arg (codes "prefix") args)) k)))
unfolding execute same trim_space list sort_strings
execute-list quote args s =
    let prefix = trim_space (arg (codes "prefix") args) in
    (
      sort_strings (keys_with prefix s),
      refl,
      sort_by-IsSorted (λ t. t) (keys_with prefix s),
      λ k. member-sort_strings k (keys_with prefix s) ∙ member-keys_with prefix k s,
    )
