-- ===== src/Presence/Keeping.antt =====
-- The rows that Connected and Disconnected of internal/presence/presence.go keep in the collection of sessions.
use chatterloop_developer_se.Common.{
  ℕ, Bool, true, false, ◌&&◌, ◌||◌, List, [], ◌∷◌, Text, text_eq, text_eq_iff, text_eq_refl, any,
  if◌then◌else◌, ◌≡◌, refl, arith, inl, inr, Bool-cases, ◌∙◌,
}
use chatterloop_developer_se.Presence.{
  Session, is_row_of, session_upsert, session_close, has_live_session,
}

-- Whether an entity has a row for a credential.
abbrev pub has_row : Text → Text → List Session → Bool
has_row e p rows = any (is_row_of e p) rows

-- No two rows have the same entity and credential.
abbrev pub OneRowEach : List Session → Type 0
OneRowEach [] = Unit
OneRowEach (s ∷ rows) = (has_row s.entity_id s.device_token rows ≡ false) × OneRowEach rows

-- The status of the first row of a credential.
unfoldable pub status_of : Text → Text → List Session → Bool
status_of e p [] = false
status_of e p (s ∷ rows) = if is_row_of e p s then s.status else status_of e p rows

abbrev pub same : Text → Text → Text → Text → Bool
same e p e' p' = text_eq e e' && text_eq p p'

is_row-eq :
    (e p : Text) (s : Session) → is_row_of e p s ≡ true → (s.entity_id ≡ e) × (s.device_token ≡ p)
is_row-eq e p s h =
    ((text_eq_iff s.entity_id e).0 (ground arith), (text_eq_iff s.device_token p).0 (ground arith))

pub has_row-upsert :
    (e p name : Text) (now : ℕ) (rows : List Session) (a b : Text)
    → has_row a b (session_upsert e p name now rows) ≡ (same e p a b || has_row a b rows)
unfolding session_upsert
has_row-upsert e p name now [] a b = ground arith
has_row-upsert e p name now (s ∷ rows) a b = elim (Bool-cases (is_row_of e p s)) [
  | inl here ↦
      let (entity, token) = is_row-eq e p s here in rw here (rw (entity, token) (ground arith))
  | inr other ↦ ground (arith, has_row-upsert e p name now rows a b)
]

pub has_row-close :
    (e p : Text) (now : ℕ) (rows : List Session) (a b : Text)
    → has_row a b (session_close e p now rows) ≡ has_row a b rows
unfolding session_close
has_row-close e p now [] a b = refl
has_row-close e p now (s ∷ rows) a b = ground (arith, has_row-close e p now rows a b)

pub upsert-OneRowEach :
    (e p name : Text) (now : ℕ) (rows : List Session)
    → OneRowEach rows
    → OneRowEach (session_upsert e p name now rows)
unfolding session_upsert
upsert-OneRowEach e p name now [] h = (refl, tt)
upsert-OneRowEach e p name now (s ∷ rows) (alone, h) = elim (Bool-cases (is_row_of e p s)) [
  | inl here ↦ rw here (alone, h)
  | inr other ↦ rw other (
    ground (
      arith,
      has_row-upsert e p name now rows s.entity_id s.device_token,
      text_eq_iff e s.entity_id,
      text_eq_iff s.entity_id e,
      text_eq_iff p s.device_token,
      text_eq_iff s.device_token p,
    ),
    upsert-OneRowEach e p name now rows h,
  )
]

pub close-OneRowEach :
    (e p : Text) (now : ℕ) (rows : List Session)
    → OneRowEach rows
    → OneRowEach (session_close e p now rows)
unfolding session_close
close-OneRowEach e p now [] h = tt
close-OneRowEach e p now (s ∷ rows) (alone, h) = elim (Bool-cases (is_row_of e p s)) [
  | inl here ↦ rw here (alone, h)
  | inr other ↦ rw other (
    has_row-close e p now rows s.entity_id s.device_token ∙ alone,
    close-OneRowEach e p now rows h,
  )
]

pub status-upsert :
    (e p name : Text) (now : ℕ) (rows : List Session) (a b : Text)
    → status_of a b (session_upsert e p name now rows)
      ≡ (if same e p a b then true else status_of a b rows)
unfolding session_upsert status_of
status-upsert e p name now [] a b = ground arith
status-upsert e p name now (s ∷ rows) a b = elim (Bool-cases (is_row_of e p s)) [
  | inl here ↦
      let (entity, token) = is_row-eq e p s here in rw here (rw (entity, token) (ground arith))
  | inr other ↦ ground (
    arith,
    status-upsert e p name now rows a b,
    text_eq_iff e a,
    text_eq_iff p b,
    text_eq_iff s.entity_id a,
    text_eq_iff s.device_token b,
    text_eq_iff s.entity_id e,
    text_eq_iff s.device_token p,
  )
]

pub status-close :
    (e p : Text) (now : ℕ) (rows : List Session) (a b : Text)
    → status_of a b (session_close e p now rows)
      ≡ (if same e p a b then false else status_of a b rows)
unfolding session_close status_of
status-close e p now [] a b = ground arith
status-close e p now (s ∷ rows) a b = elim (Bool-cases (is_row_of e p s)) [
  | inl here ↦
      let (entity, token) = is_row-eq e p s here in rw here (rw (entity, token) (ground arith))
  | inr other ↦ ground (
    arith,
    status-close e p now rows a b,
    text_eq_iff e a,
    text_eq_iff p b,
    text_eq_iff s.entity_id a,
    text_eq_iff s.device_token b,
    text_eq_iff s.entity_id e,
    text_eq_iff s.device_token p,
  )
]

status-has_row :
    (e p : Text) (rows : List Session) → status_of e p rows ≡ true → has_row e p rows ≡ true
unfolding status_of
status-has_row e p [] h = cc
status-has_row e p (s ∷ rows) h = ground (arith, status-has_row e p rows)

pub live-status :
    (e : Text) (rows : List Session)
    → OneRowEach rows
    → has_live_session e rows ≡ true
    → (p : Text) × (status_of e p rows ≡ true)
unfolding has_live_session status_of
live-status e [] one h = cc
live-status e (s ∷ rows) (alone, one) h = elim (Bool-cases (text_eq s.entity_id e && s.status)) [
  | inl here ↦ (s.device_token, ground (arith, text_eq_refl s.device_token))
  | inr other ↦
      let (p, on) = live-status e rows one (ground arith) in
      elim (Bool-cases (is_row_of e p s)) [
        | inr differs ↦ (p, rw differs on)
        | inl matches ↦
            let (entity, token) = is_row-eq e p s matches in
            cc (status-has_row e p rows on, alone, entity, token)
      ]
]

pub status-live :
    (e p : Text) (rows : List Session) → status_of e p rows ≡ true → has_live_session e rows ≡ true
unfolding has_live_session status_of
status-live e p [] h = cc
status-live e p (s ∷ rows) h = ground (arith, status-live e p rows)
