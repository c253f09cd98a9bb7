-- ===== src/Auth/Token/Touching.antt =====
-- internal/auth/token.go, TouchLastUsed: the update of the column, with the throttle of its WHERE.
use chatterloop_developer_se.Common.{
  ℕ, ◌+◌, ◌≤◌, Bool, true, false, ◌&&◌, Option, none, some, List, [], ◌∷◌, Text, text_eq, ltb,
  if◌then◌else◌, ◌≡◌, refl, arith, Bool-cases, inl, inr, All,
}

abbrev a_minute : ℕ
a_minute = 60000000000

abbrev stale : ℕ → Option ℕ → Bool
stale now none = true
stale now (some at) = ltb (at + a_minute) now

-- The rows are those of `entity_token`, by their id and last_used_at.
unfoldable pub touch_last_used : ℕ → Text → List (Text × Option ℕ) → List (Text × Option ℕ)
touch_last_used now id [] = []
touch_last_used now id ((i, at) ∷ rows) =
    let rest = touch_last_used now id rows in
    if text_eq i id && stale now at then (i, some now) ∷ rest else (i, at) ∷ rest

-- A stamp that is at most a minute old.
abbrev pub Recent : ℕ → Text → Text × Option ℕ → Type 0
Recent now id (i, at) = text_eq i id ≡ true → (t : ℕ) × ((at ≡ some t) × (now ≤ t + 60000000000))

-- After a request every row of its token has a stamp that is at most a minute old.
pub touch_last_used-Recent :
    (now : ℕ) (id : Text) (rows : List (Text × Option ℕ))
    → All (Recent now id) (touch_last_used now id rows)
unfolding touch_last_used
touch_last_used-Recent now id [] = tt
touch_last_used-Recent now id ((i, at) ∷ rows) = elim (Bool-cases (text_eq i id && stale now at)) [
  | inl stamped ↦
      rw stamped (λ same. (now, (refl, omega arith)), touch_last_used-Recent now id rows)
  | inr kept ↦ rw kept (fresh at kept, touch_last_used-Recent now id rows)
]
  where
    fresh : (o : Option ℕ) → (text_eq i id && stale now o) ≡ false → Recent now id (i, o)
    fresh none kept same = ground arith
    fresh (some t) kept same = (t, (refl, ground arith))
