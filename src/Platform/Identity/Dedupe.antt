-- ===== src/Platform/Identity/Dedupe.antt =====
-- dedupe keeps the first of each non-blank value, in order.
use chatterloop_developer_se.Common.{
  true, ◌&&◌, ◌||◌, not, List, [], ◌∷◌, ◌++◌, Text, text_eq, contains, contains-append, Distinct,
  Distinct-concat, ◌≡◌, refl, arith, Bool-cases, inl, inr, text_eq_iff, ◌≤◌, length, length-append,
  is_empty, ◌+◌,
}
use chatterloop_developer_se.Platform.Identity.{dedupe, dedupe_into}

text_eq-nil : (v : Text) → text_eq v [] ≡ is_empty v
unfolding text_eq
text_eq-nil [] = refl
text_eq-nil (c ∷ v) = refl

contains-same : (v x : Text) (xs : List Text) → text_eq x v ≡ true → contains v xs ≡ contains x xs
contains-same v x xs e = rw ((text_eq_iff x v).0 e)

pub contains-dedupe_into :
    (out values : List Text) (v : Text)
    → contains v (dedupe_into out values)
      ≡ (contains v out || not (is_empty v) && contains v values)
unfolding dedupe_into contains
contains-dedupe_into out [] v = ground arith
contains-dedupe_into out (x ∷ values) v = ground (
  arith,
  contains-dedupe_into out values v,
  contains-dedupe_into (out ++ x ∷ []) values v,
  contains-append v out (x ∷ []),
  text_eq-nil x,
  contains-same v x out,
  text_eq_iff x v,
)

-- A value is kept exactly when it was given and is not blank.
pub contains-dedupe :
    (values : List Text) (v : Text)
    → contains v (dedupe values) ≡ (not (is_empty v) && contains v values)
unfolding dedupe contains
contains-dedupe values v = contains-dedupe_into [] values v

pub dedupe_into-Distinct :
    (out values : List Text) → Distinct out → Distinct (dedupe_into out values)
unfolding dedupe_into
dedupe_into-Distinct out [] d = d
dedupe_into-Distinct out (x ∷ values) d = elim (Bool-cases (text_eq x [] || contains x out)) [
  | inl seen ↦ rw seen (dedupe_into-Distinct out values d)
  | inr fresh ↦
      rw fresh
        (dedupe_into-Distinct (out ++ x ∷ []) values (Distinct-concat out x d (ground arith)))
]

-- No value is kept twice.
pub dedupe-Distinct : (values : List Text) → Distinct (dedupe values)
unfolding dedupe
dedupe-Distinct values = dedupe_into-Distinct [] values tt

pub length-dedupe_into :
    (out values : List Text) → length (dedupe_into out values) ≤ length out + length values
unfolding dedupe_into
length-dedupe_into out [] = omega arith
length-dedupe_into out (x ∷ values) = ground (
  arith,
  length-dedupe_into out values,
  length-dedupe_into (out ++ x ∷ []) values,
  length-append out (x ∷ []),
)
