-- ===== src/Common/Fetch.antt =====
-- What a database hands back: an error, or a stream of rows that `Next`, `Scan` and `Err` read.
use mathlib.Core.Path.{◌≡◌, refl, ap}
use mathlib.Core.Logic.{◌⊎◌, inl, inr}
use mathlib.Core.List.{List, [], ◌∷◌}

pub data Fetched {ℓ} (A : Type ℓ) : Type ℓ where
  found : A → Fetched A
  missing : Fetched A
  broken : Fetched A

-- `exhausted` ends with `Err() == nil` and `cut_short` with an error; `unreadable` is a row that
-- `Scan` refuses.
pub data Rows {ℓ} (A : Type ℓ) : Type ℓ where
  exhausted cut_short : Rows A
  row : A → Rows A → Rows A
  unreadable : Rows A → Rows A

module _ {ℓ} {A : Type ℓ} where
  abbrev pub rows_of : List A → Rows A
  rows_of [] = exhausted
  rows_of (a ∷ as') = row a (rows_of as')

pub query_cases {ℓ} :
    {A : Type ℓ} (q : Fetched A) → ((a : A) × (q ≡ found a)) ⊎ ((q ≡ missing) ⊎ (q ≡ broken))
query_cases (found a) = inl (a, refl)
query_cases missing = inr (inl refl)
query_cases broken = inr (inr refl)

-- The value of a result, for equations between results.
value_or {ℓ} : {A : Type ℓ} → A → Fetched A → A
value_or d (found a) = a
value_or d missing = d
value_or d broken = d

pub found-injective {ℓ} : {A : Type ℓ} {a b : A} → found a ≡ found b → a ≡ b
unfolding value_or
found-injective {a} e = ap (value_or a) e
