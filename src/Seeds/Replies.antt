-- ===== src/Seeds/Replies.antt =====
-- What the built-in seeds answer: the helpers that kv/seed.go and fs/seed.go share in text, and the
-- form that every answer has.
use edgectl.Prelude.{◌≡◌, ◌↔◌, [], ◌∷◌, ◌++◌, Text, codes, lookup, text_eq, Option, none, some}
use edgectl.Session.Command.{Args}
use edgectl.Seeds.{SeedResult}

-- A result and perhaps the text of an error.
abbrev pub Reply : Type 0
Reply = SeedResult × Option Text

-- `args[name]`, which is empty for a name that is not there.
unfoldable pub arg : Text → Args → Text
arg name args = elim (lookup name args) [ none ↦ [] | some t ↦ t ]

abbrev pub status_ok : Text
status_ok = codes "ok"

abbrev pub status_error : Text
status_error = codes "error"

-- `append([]byte(msg), '\n')`
abbrev pub line : Text → Text
line t = t ++ 10 ∷ []

unfoldable pub ok_result : Text → SeedResult
ok_result stdout = record { status = status_ok; stdout = stdout; stderr = []; exit_code = 0 }

unfoldable pub error_result : Text → SeedResult
error_result msg = record { status = status_error; stdout = []; stderr = line msg; exit_code = 1 }

-- The status, the exit code and the error of an answer agree.
pub record IsConsistent (r : Reply) : Type 0 where
  pub status_known : (r.1 ≡ none) ↔ (r.0.status ≡ status_ok)
  pub exit_known : (r.1 ≡ none) ↔ (r.0.exit_code ≡ 0)
