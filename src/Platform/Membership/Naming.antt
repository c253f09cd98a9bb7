-- ===== src/Platform/Membership/Naming.antt =====
-- The name of a realm is its path of names from the root, and the calls end where the path does.
use chatterloop_developer_se.Common.{
  ℕ, zero, suc, ◌≤◌, none, some, List, [], ◌∷◌, Text, ◌≡◌, arith, found, missing, length, ◌++◌,
  codes, ap, sym, append_assoc, refl, ◌∙◌,
}
use chatterloop_developer_se.Platform.Membership.{RealmNames, realm_name, qualify}

-- The names from a realm up to its root, the nearest first. A parent that no row has ends the path,
-- and so does a blank one.
pub data PathUp (names : RealmNames) : Text → List Text → Type 0 where
  root : {id name : Text} → names id ≡ found (name, none) → PathUp names id (name ∷ [])
  blank_parent : {id name : Text} → names id ≡ found (name, some []) → PathUp names id (name ∷ [])
  under :
      {id name : Text} {c : ℕ} {parent : Text} {path : List Text}
      → names id ≡ found (name, some (c ∷ parent))
      → PathUp names (c ∷ parent) path
      → PathUp names id (name ∷ path)
  orphan :
      {id name : Text} {c : ℕ} {parent : Text}
      → names id ≡ found (name, some (c ∷ parent))
      → names (c ∷ parent) ≡ missing
      → PathUp names id (name ∷ [])

-- A path from the root down.
abbrev pub root_first : List Text → List Text
root_first [] = []
root_first (name ∷ path) = root_first path ++ name ∷ []

abbrev pub without_blank_roots : List Text → List Text
without_blank_roots [] = []
without_blank_roots ([] ∷ names) = without_blank_roots names
without_blank_roots ((c ∷ name) ∷ names) = (c ∷ name) ∷ names

-- `Root | … | Name`.
abbrev pub intercalate : List Text → Text
intercalate [] = []
intercalate (name ∷ []) = name
intercalate (name ∷ next ∷ names) = name ++ (codes " | " ++ intercalate (next ∷ names))

intercalate-concat :
    (first name : Text) (names : List Text)
    → intercalate (first ∷ (names ++ name ∷ []))
      ≡ intercalate (first ∷ names) ++ (codes " | " ++ name)
intercalate-concat first name [] = refl
intercalate-concat first name (next ∷ names) =
    ap (λ t. first ++ (codes " | " ++ t)) (intercalate-concat next name names)
    ∙ sym (append_assoc first (codes " | " ++ intercalate (next ∷ names)) (codes " | " ++ name))

qualify-cons :
    (c : ℕ) (first name : Text) (names : List Text)
    → qualify (intercalate ((c ∷ first) ∷ names)) name
      ≡ intercalate ((c ∷ first) ∷ names) ++ (codes " | " ++ name)
qualify-cons c first name [] = append_assoc (c ∷ first) (codes " | ") name
qualify-cons c first name (next ∷ names) =
    append_assoc (intercalate ((c ∷ first) ∷ next ∷ names)) (codes " | ") name

intercalate-qualify :
    (names : List Text) (name : Text)
    → qualify (intercalate (without_blank_roots names)) name
      ≡ intercalate (without_blank_roots (names ++ name ∷ []))
intercalate-qualify [] [] = refl
intercalate-qualify [] (c ∷ name) = refl
intercalate-qualify ([] ∷ names) name = intercalate-qualify names name
intercalate-qualify ((c ∷ first) ∷ names) name =
    qualify-cons c first name names ∙ sym (intercalate-concat (c ∷ first) name names)

-- The whole name of a path, the nearest name first.
abbrev pub joined : List Text → Text
joined path = intercalate (without_blank_roots (root_first path))

alone : (name : Text) → joined (name ∷ []) ≡ name
alone [] = refl
alone (c ∷ name) = refl

one_call :
    (names : RealmNames) (n : ℕ) (id name : Text)
    → names id ≡ found (name, none)
    → realm_name (suc n) names id ≡ some name
unfolding realm_name
one_call names n id name e = rw (realm_name, e)

-- Where the parents of a realm end, as many nested calls as the path has names, and one for a parent
-- without a row, are enough, and the name they return is the names from the root down with ` | ` between
-- them, less the blank ones that the path begins with at the root.
pub realm_name-joined :
    (names : RealmNames) (id : Text) (path : List Text) (fuel : ℕ)
    → PathUp names id path
    → suc (length path) ≤ fuel
    → realm_name fuel names id ≡ some (joined path)
unfolding realm_name
realm_name-joined names id path zero p h = absurd (omega arith)
realm_name-joined names id path (suc fuel) (root {name} e) h = rw (realm_name, e, alone name)
realm_name-joined names id path (suc fuel) (blank_parent {name} e) h =
    rw (realm_name, e, alone name)
realm_name-joined names id path (suc fuel) (under {name} {c} {parent} {path = p} e above) h =
    rw (realm_name, e, realm_name-joined names (c ∷ parent) p fuel above (omega arith))
      (ap some (intercalate-qualify (root_first p) name))
realm_name-joined names id path (suc zero) (orphan e none') h = absurd (omega arith)
realm_name-joined names id path (suc (suc fuel)) (orphan {name} {c} {parent} e none') h =
    rw (realm_name, e, none', alone name)
