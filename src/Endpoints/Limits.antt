-- ===== src/Endpoints/Limits.antt =====
-- What the query parameters can ask for.
use chatterloop_developer_se.Common.{
  ℕ, zero, suc, ◌+◌, ◌≤◌, false, Option, List, [], ◌∷◌, ◌++◌, Text, if◌then◌else◌, is_empty, ◌==◌,
  length, length-append, take, trim_space, ℤ, pos, negsuc, ◌≡◌, sym, ◌∙◌, arith, Option-cases,
  Bool-cases, inl, inr, append-nil, append_assoc,
}
use chatterloop_developer_se.Endpoints.{read_limit, read_ids, take_ids, all_parts}

-- A limit is never below 1 and never above its ceiling, whatever the request says.
pub read_limit-bounds :
    (parse : Text → Option ℤ) (raw : Text) (fallback ceiling : ℕ)
    → 1 ≤ fallback
    → fallback ≤ ceiling
    → (1 ≤ read_limit parse raw fallback ceiling)
      × (read_limit parse raw fallback ceiling ≤ ceiling)
unfolding read_limit
read_limit-bounds parse [] fallback ceiling low high = (low, high)
read_limit-bounds parse (c ∷ raw) fallback ceiling low high =
    elim (Option-cases (parse (c ∷ raw))) [
      | inl failed ↦ rw (read_limit, failed) (low, high)
      | inr (negsuc n, held) ↦ rw (read_limit, held) (omega arith, omega arith)
      | inr (pos n, held) ↦ rw (read_limit, held) (ground arith, ground arith)
    ]

-- The parts that are not blank, trimmed.
abbrev pub said : List Text → List Text
said [] = []
said (p ∷ parts) = if is_empty (trim_space p) then said parts else trim_space p ∷ said parts

take_ids-take :
    (most : ℕ) (ids parts : List Text) (room : ℕ)
    → length ids + suc room ≡ most
    → take_ids most ids parts ≡ ids ++ take (suc room) (said parts)
unfolding take_ids
take_ids-take most ids [] room h = sym (append-nil ids)
take_ids-take most ids (p ∷ parts) room h = elim (Bool-cases (is_empty (trim_space p))) [
  | inl blank ↦ rw blank (take_ids-take most ids parts room h)
  | inr some' ↦
      rw some' (taken (λ r h. take_ids-take most (ids ++ trim_space p ∷ []) parts r h) room h)
]
  where
    next : List Text
    next = ids ++ trim_space p ∷ []

    taken :
        ((r : ℕ)
          → length next + suc r ≡ most
          → take_ids most next parts ≡ next ++ take (suc r) (said parts))
        → (r : ℕ) → length ids + suc r ≡ most
        → (if length next == most then next else take_ids most next parts)
          ≡ ids ++ trim_space p ∷ take r (said parts)
    taken more zero h = ground (arith, length-append ids (trim_space p ∷ []))
    taken more (suc r) h =
        let below : (length next == most) ≡ false =
          ground (arith, length-append ids (trim_space p ∷ [])) in
        rw below (
          more r (omega (arith, h, length-append ids (trim_space p ∷ [])))
          ∙ append_assoc ids (trim_space p ∷ []) (take (suc r) (said parts)))

-- The ids of a request are the first so many of the trimmed parts between commas, of all values of the
-- parameter, that are not blank.
pub read_ids-take :
    (values : List Text) (most : ℕ)
    → 1 ≤ most
    → read_ids values most ≡ take most (said (all_parts values))
unfolding read_ids
read_ids-take values zero h = absurd (omega arith)
read_ids-take values (suc room) h =
    take_ids-take (suc room) [] (all_parts values) room (omega arith)
