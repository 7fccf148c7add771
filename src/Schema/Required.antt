-- ===== src/Schema/Required.antt =====
-- What `Validate` accepts, against the table of required fields.
use edgectl.Prelude.{
  ℕ, ◌≡◌, ◌↔◌, refl, List, [], ◌∷◌, ◌++◌, some, All, ok, arith, Option-cases, inl, inr, >>=-eq-ok,
}
use edgectl.Tlv.{Field, get_field}
use edgectl.Schema.{Requirement, requirements, check_requirement, check_requirements, validate}

-- The first field with the required id is there, and has the required type.
abbrev pub Meets : List Field → Requirement → Type 0
Meets fields req = (f : Field) × (get_field fields req.id ≡ some f) × (f.typ ≡ req.typ)

check_requirement→Meets :
    (mt : ℕ) (fields : List Field) (req : Requirement)
    → check_requirement mt fields req ≡ ok tt
    → Meets fields req
unfolding check_requirement
check_requirement→Meets mt fields req e = elim (Option-cases (get_field fields req.id)) [
  | inl missing ↦ absurd (ground (arith, missing))
  | inr (f, found) ↦ (f, found, ground (arith, found))
]

Meets→check_requirement :
    (mt : ℕ) (fields : List Field) (req : Requirement)
    → Meets fields req
    → check_requirement mt fields req ≡ ok tt
unfolding check_requirement
Meets→check_requirement mt fields req (f, found, typed) = ground arith

check_requirements→Meets :
    (mt : ℕ) (fields : List Field) (reqs : List Requirement)
    → check_requirements mt fields reqs ≡ ok tt
    → All (Meets fields) reqs
unfolding check_requirements
check_requirements→Meets mt fields [] e = tt
check_requirements→Meets mt fields (req ∷ reqs) e =
    let (_, first, rest) = >>=-eq-ok (check_requirement mt fields req) _ e in
    (check_requirement→Meets mt fields req first, check_requirements→Meets mt fields reqs rest)

Meets→check_requirements :
    (mt : ℕ) (fields : List Field) (reqs : List Requirement)
    → All (Meets fields) reqs
    → check_requirements mt fields reqs ≡ ok tt
unfolding check_requirements
Meets→check_requirements mt fields [] h = refl
Meets→check_requirements mt fields (req ∷ reqs) (h, hs) =
    rw (Meets→check_requirement mt fields req h) (Meets→check_requirements mt fields reqs hs)

-- A message is accepted exactly if its type is in the table and, for each field required there,
-- the first field with that id exists and has the required type.
pub validate_iff :
    (mt : ℕ) (fields : List Field)
    → (validate mt fields ≡ ok tt)
      ↔ ((reqs : List Requirement) × (requirements mt ≡ some reqs) × All (Meets fields) reqs)
unfolding validate
validate_iff mt fields = (
  λ e. elim (Option-cases (requirements mt)) [
    | inl unknown ↦ absurd (ground (arith, unknown))
    | inr (reqs, known) ↦
        (reqs, known, check_requirements→Meets mt fields reqs (ground (arith, known)))
  ],
  λ (reqs, known, h). ground (arith, known, Meets→check_requirements mt fields reqs h),
)

get_field-append :
    (fields more : List Field) (id : ℕ) (f : Field)
    → get_field fields id ≡ some f
    → get_field (fields ++ more) id ≡ some f
unfolding get_field
get_field-append [] more id f e = cc
get_field-append (g ∷ fields) more id f e = ground (arith, get_field-append fields more id f)

All-Meets-append :
    (fields more : List Field) (reqs : List Requirement)
    → All (Meets fields) reqs
    → All (Meets (fields ++ more)) reqs
All-Meets-append fields more [] h = tt
All-Meets-append fields more (req ∷ reqs) ((f, found, typed), hs) =
    ((f, get_field-append fields more req.id f found, typed), All-Meets-append fields more reqs hs)

-- Fields behind the required ones, known or not, do not make a message unacceptable.
pub validate-append :
    (mt : ℕ) (fields more : List Field)
    → validate mt fields ≡ ok tt
    → validate mt (fields ++ more) ≡ ok tt
validate-append mt fields more e =
    let (reqs, known, h) = (validate_iff mt fields).0 e in
    (validate_iff mt (fields ++ more)).1 (reqs, known, All-Meets-append fields more reqs h)
