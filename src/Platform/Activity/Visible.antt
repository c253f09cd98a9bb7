-- ===== src/Platform/Activity/Visible.antt =====
-- Which rows commentRowsForViewer returns.
use chatterloop_developer_se.Common.{
  Bool, true, false, some, List, [], ◌∷◌, Text, text_eq, lookup, put, remove, or_else, Fetched,
  found, Rows, found-injective, exhausted, cut_short, row, unreadable, ◌≡◌, ◌⊎◌, arith, ◌∙◌, ap,
  Bool-cases, inl, inr, query_cases, Option-cases, text_eq_iff,
}
use chatterloop_developer_se.Platform.Community.{AccessRow, load_post_access, PostAccess, permits}
use chatterloop_developer_se.Platform.Activity.{
  CommentRow, Comments, read_comments, post_answers, readable_with, keep_readable,
}

-- A row of the query's answer.
abbrev pub RowOf : Text → CommentRow → Rows (Text × CommentRow) → Type 0
RowOf id c exhausted = ⊥
RowOf id c cut_short = ⊥
RowOf id c (unreadable rows) = RowOf id c rows
RowOf id c (row (j, d) rows) = ((j ≡ id) × (d ≡ c)) ⊎ RowOf id c rows

abbrev pub Entry : Text → CommentRow → Comments → Type 0
Entry id c [] = ⊥
Entry id c ((j, d) ∷ cs) = ((j ≡ id) × (d ≡ c)) ⊎ Entry id c cs

pub lookup-Entry :
    (id : Text) (c : CommentRow) (cs : Comments) → lookup id cs ≡ some c → Entry id c cs
unfolding lookup
lookup-Entry id c [] e = cc
lookup-Entry id c ((j, d) ∷ cs) e = elim (Bool-cases (text_eq j id)) [
  | inl same ↦ inl ((text_eq_iff j id).0 same, ground arith)
  | inr other ↦ inr (lookup-Entry id c cs (rw other at e))
]

pub remove-Entry :
    (id k : Text) (c : CommentRow) (cs : Comments) → Entry id c (remove k cs) → Entry id c cs
unfolding remove
remove-Entry id k c [] m = m
remove-Entry id k c ((j, d) ∷ cs) m = elim (Bool-cases (text_eq j k)) [
  | inl same ↦ inr (remove-Entry id k c cs (rw same at m))
  | inr other ↦ elim (rw other at m) [
    | inl it ↦ inl it
    | inr later ↦ inr (remove-Entry id k c cs later)
  ]
]

pub read_comments-RowOf :
    (id : Text) (c : CommentRow) (cs : Comments) (rows : Rows (Text × CommentRow)) (read : Comments)
    → read_comments cs rows ≡ found read
    → Entry id c read
    → Entry id c cs ⊎ RowOf id c rows
unfolding read_comments
read_comments-RowOf id c cs exhausted read e m = inl (rw (found-injective e) m)
read_comments-RowOf id c cs cut_short read e m = cc
read_comments-RowOf id c cs (unreadable rows) read e m = cc
read_comments-RowOf id c cs (row (j, d) rows) read e m =
    elim (read_comments-RowOf id c (put j d cs) rows read e m) [
      | inr later ↦ inr (inr later)
      | inl (inl it) ↦ inr (inl it)
      | inl (inr before) ↦ inl (remove-Entry id j c cs before)
    ]

pub keep_readable-Entry :
    (id : Text) (c : CommentRow) (answers : List (Text × Bool)) (cs : Comments)
    → Entry id c (keep_readable answers cs)
    → Entry id c cs × (or_else false (lookup c.post_id answers) ≡ true)
unfolding keep_readable
keep_readable-Entry id c answers [] m = elim m [ ]
keep_readable-Entry id c answers ((j, d) ∷ cs) m =
    elim (Bool-cases (or_else false (lookup d.post_id answers))) [
      | inl readable ↦ elim (rw readable at m) [
        | inl (named, it) ↦ (inl (named, it), rw (← it) readable)
        | inr later ↦ let (n, ok) = keep_readable-Entry id c answers cs later in (inr n, ok)
      ]
      | inr hidden ↦
          let (n, ok) = keep_readable-Entry id c answers cs (rw hidden at m) in (inr n, ok)
    ]

-- A post that is found and permits the viewer to read it.
abbrev pub Readable : (Text → Text → Fetched AccessRow) → Text → Text → Type 0
Readable access viewer post_id =
    (a : PostAccess) × ((load_post_access access post_id viewer ≡ found a)
      × (permits a viewer false ≡ true))

readable_with-Readable :
    (access : Text → Text → Fetched AccessRow) (viewer post_id : Text)
    → readable_with viewer (load_post_access access post_id viewer) ≡ some true
    → Readable access viewer post_id
readable_with-Readable access viewer post_id e =
    elim (query_cases (load_post_access access post_id viewer)) [
      | inl (a, held) ↦ (a, (held, ground arith))
      | inr (inl none') ↦ ground arith
      | inr (inr failed) ↦ ground arith
    ]

pub post_answers-Readable :
    (access : Text → Text → Fetched AccessRow) (viewer : Text) (posts : List Text)
    (answers : List (Text × Bool)) (post_id : Text)
    → post_answers access viewer posts ≡ some answers
    → or_else false (lookup post_id answers) ≡ true
    → Readable access viewer post_id
unfolding post_answers lookup
post_answers-Readable access viewer [] answers post_id e h = ground arith
post_answers-Readable access viewer (p ∷ posts) answers post_id e h =
    elim (Option-cases (readable_with viewer (load_post_access access p viewer))) [
      | inl failed ↦ cc (rw (post_answers, failed) at e)
      | inr (readable, asked) ↦ elim (Option-cases (post_answers access viewer posts)) [
        | inl failed ↦ cc (rw (post_answers, asked, failed) at e)
        | inr (others, held) ↦
            answered readable asked others (rw (post_answers, asked, held) at e)
              (λ h'. post_answers-Readable access viewer posts others post_id held h')
      ]
    ]
  where
    answered :
        (readable : Bool)
        → readable_with viewer (load_post_access access p viewer) ≡ some readable
        → (others : List (Text × Bool)) → some ((p, readable) ∷ others) ≡ some answers
        → (or_else false (lookup post_id others) ≡ true → Readable access viewer post_id)
        → Readable access viewer post_id
    answered readable asked others same rec =
        let all_answers : (p, readable) ∷ others ≡ answers = ground arith in
        let h' : or_else false (lookup post_id ((p, readable) ∷ others)) ≡ true =
          ap (λ l. or_else false (lookup post_id l)) all_answers ∙ h in
        elim (Bool-cases (text_eq p post_id)) [
          | inl named ↦
              let here : p ≡ post_id = (text_eq_iff p post_id).0 named in
              let yes' : readable ≡ true = ground (arith, h') in
              readable_with-Readable access viewer post_id (rw (← here, ← yes') asked)
          | inr other ↦ rec (rw other at h')
        ]
