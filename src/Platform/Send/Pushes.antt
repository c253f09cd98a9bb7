-- ===== src/Platform/Send/Pushes.antt =====
-- Who is pushed, and by which push.
use chatterloop_developer_se.Common.{◌+◌, ℕ, List, [], ◌∷◌, Text, text_eq, if◌then◌else◌}
use chatterloop_developer_se.Platform.Send.{
  plain_targets, mention_targets, Effect, inserted, unarchived, previewed, framed, scored, pushed,
  Setting, StoredMessage,
}

-- How often an entity stands in a list.
abbrev pub times_in : Text → List Text → ℕ
times_in e [] = 0
times_in e (i ∷ ids) = (if text_eq i e then 1 else 0) + times_in e ids

-- How often the pushes of these effects name an entity, in one job or in several.
abbrev pub times_pushed : Text → List Effect → ℕ
times_pushed e [] = 0
times_pushed e (pushed p ∷ effects) = times_in e p.entity_ids + times_pushed e effects
times_pushed e (inserted _ ∷ effects) = times_pushed e effects
times_pushed e (unarchived _ ∷ effects) = times_pushed e effects
times_pushed e (previewed _ _ _ ∷ effects) = times_pushed e effects
times_pushed e (framed _ _ ∷ effects) = times_pushed e effects
times_pushed e (scored _ _ ∷ effects) = times_pushed e effects

module _ (w : Setting) (m : StoredMessage) (realm_name : Text) (mentioned ids : List Text) where
  abbrev plain : List Text
  plain = plain_targets m.sender mentioned ids

  abbrev told : List Text
  told = mention_targets m.sender mentioned ids
