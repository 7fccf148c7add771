-- ===== src/Seeds/Fs/Paths.antt =====
-- What fs/seed.go uses of path/filepath on Unix: Clean, Join, IsAbs and Abs, all of them lexical.
use edgectl.Prelude.{
  ℕ, List, [], ◌∷◌, ◌++◌, reverse, Bool, true, false, ◌||◌, ◌==◌, if◌then◌else◌, Text, codes, same,
  is_empty, join, Result, ok, ◌>>=◌,
}

-- '/'
abbrev pub slash : ℕ
slash = 47

-- A byte before the first piece.
unfoldable pub prepend : ℕ → List Text → List Text
prepend c [] = (c ∷ []) ∷ []
prepend c (piece ∷ pieces) = (c ∷ piece) ∷ pieces

-- `strings.Split(t, "/")`
unfoldable pub split : Text → List Text
unfolding prepend
split [] = [] ∷ []
split (c ∷ t) = let pieces = split t in if c == slash then [] ∷ pieces else prepend c pieces

unfoldable pub is_abs : Text → Bool
is_abs [] = false
is_abs (c ∷ t) = c == slash

abbrev pub dot : Text
dot = codes "."

abbrev pub dot_dot : Text
dot_dot = codes ".."

-- `..` takes a name away, stands where only its like precede it, and vanishes at the root.
unfoldable pub step_up : Bool → List Text → List Text
step_up rooted [] = if rooted then [] else dot_dot ∷ []
step_up rooted (d ∷ above) = if same d dot_dot then dot_dot ∷ d ∷ above else above

-- The names kept so far, the last one first.
unfoldable pub step_into : Bool → List Text → Text → List Text
unfolding step_up
step_into rooted above c =
    if is_empty c || same c dot
    then above
    else if same c dot_dot
    then step_up rooted above
    else c ∷ above

unfoldable pub walk : Bool → List Text → List Text → List Text
unfolding step_into
walk rooted above [] = above
walk rooted above (c ∷ cs) = walk rooted (step_into rooted above c) cs

unfoldable pub render : Bool → List Text → Text
render true names = slash ∷ join (slash ∷ []) names
render false [] = dot
render false (n ∷ names) = join (slash ∷ []) (n ∷ names)

-- filepath.Clean
unfoldable pub clean : Text → Text
unfolding walk render is_abs split
clean t = render (is_abs t) (reverse (walk (is_abs t) [] (split t)))

-- filepath.Join of two
unfoldable pub join_path : Text → Text → Text
join_path [] [] = []
join_path [] (c ∷ t) = clean (c ∷ t)
join_path (c ∷ s) t = clean ((c ∷ s) ++ (slash ∷ t))

-- filepath.Abs, with the working directory.
unfoldable pub abs : Result Text Text → Text → Result Text Text
abs wd path = if is_abs path then ok (clean path) else wd >>= λ dir. ok (join_path dir path)
