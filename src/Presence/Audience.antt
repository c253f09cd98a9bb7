-- ===== src/Presence/Audience.antt =====
-- Who is told of a change.
use chatterloop_developer_se.Common.{
  Bool, ◌&&◌, ◌||◌, not, Option, List, ◌++◌, Text, text_eq, contains, contains-append,
  contains-without, without-Distinct, Distinct, is_empty, ◌≡◌, arith, found, rows_of, any, none,
  some, [], ◌∷◌, false, refl, ◌∙◌,
}
use chatterloop_developer_se.Platform.Identity.{dedupe}
use chatterloop_developer_se.Platform.Identity.Dedupe.{contains-dedupe, dedupe-Distinct}
use chatterloop_developer_se.Presence.{scope, read_contacts, participants_of}

-- Whether a row of the contacts names an id; a row may name nobody.
abbrev pub names : Text → Option Text → Bool
names x none = false
names x (some id) = text_eq id x

read_contacts-names :
    (contacts : List (Option Text)) (x : Text)
    → contains x (read_contacts (rows_of contacts)).0 ≡ any (names x) contacts
unfolding read_contacts contains
read_contacts-names [] x = refl
read_contacts-names (none ∷ contacts) x = read_contacts-names contacts x
read_contacts-names (some id ∷ contacts) x = ground (arith, read_contacts-names contacts x)

participants-contains :
    (docs : List (List Text)) (x : Text)
    → contains x (participants_of docs) ≡ any (λ ids. contains x ids) docs
participants-contains [] x = unfold contains in refl
participants-contains (ids ∷ docs) x =
    contains-append x ids (participants_of docs) ∙ rw (participants-contains docs x)

read_contacts-failed :
    (contacts : List (Option Text)) → (read_contacts (rows_of contacts)).1 ≡ false
unfolding read_contacts
read_contacts-failed [] = refl
read_contacts-failed (none ∷ contacts) = read_contacts-failed contacts
read_contacts-failed (some id ∷ contacts) = read_contacts-failed contacts

-- Where the rows of both sources arrive, those told of an entity are exactly the contacts that a row
-- names and the participants of its single conversations, but not the entity itself and no blank id;
-- nobody is told twice, and the scope is partial exactly when a conversation could not be decoded.
pub scope-contains :
    (contacts : List (Option Text)) (docs : List (List Text)) (partly : Bool) (e x : Text)
    → (contains x (scope (found (rows_of contacts)) (found (docs, partly)) e).0 ≡ (
        (any (names x) contacts || any (λ ids. contains x ids) docs)
        && (not (is_empty x) && not (text_eq x e))))
      × Distinct (scope (found (rows_of contacts)) (found (docs, partly)) e).0
      × ((scope (found (rows_of contacts)) (found (docs, partly)) e).1 ≡ partly)
unfolding scope
scope-contains contacts docs partly e x =
    let near = (read_contacts (rows_of contacts)).0 in
    let talking = participants_of docs in
    (
      ground (
        arith,
        contains-without e (dedupe (near ++ talking)) x,
        contains-dedupe (near ++ talking) x,
        contains-append x near talking,
        read_contacts-names contacts x,
        participants-contains docs x,
      ),
      without-Distinct e (dedupe (near ++ talking)) (dedupe-Distinct (near ++ talking)),
      rw (read_contacts-failed contacts),
    )
