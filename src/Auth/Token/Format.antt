-- ===== src/Auth/Token/Format.antt =====
-- ParseToken accepts exactly `clt_<12 hex>_<64 hex>`, white space around it aside.
use chatterloop_developer_se.Common.{
  ℕ, true, some, List, [], ◌∷◌, ◌++◌, Text, text_eq, text_eq_iff, length, all, ◌≡◌, ◌≢◌, refl,
  trim_space, arith, All, append_assoc, append-nil, ◌↔◌,
}
use chatterloop_developer_se.Auth.Token.{
  split_from, split, is_hex, is_hex_digit, parse_parts, parse_token, prefix_hex_len, secret_hex_len,
  token_namespace,
}

abbrev Lacks : ℕ → Text → Type 0
Lacks sep = All (λ c. c ≢ sep)

split_from-append :
    (sep : ℕ) (cur part rest : Text)
    → Lacks sep part
    → split_from sep cur (part ++ sep ∷ rest) ≡ (cur ++ part) ∷ split_from sep [] rest
unfolding split_from
split_from-append sep cur [] rest h = ground (arith, append-nil cur)
split_from-append sep cur (c ∷ part) rest (p, h) =
    ground
      (arith, split_from-append sep (cur ++ c ∷ []) part rest h, append_assoc cur (c ∷ []) part)

split_from_last :
    (sep : ℕ) (cur part : Text) → Lacks sep part → split_from sep cur part ≡ (cur ++ part) ∷ []
unfolding split_from
split_from_last sep cur [] h = ground (arith, append-nil cur)
split_from_last sep cur (c ∷ part) (p, h) =
    ground (arith, split_from_last sep (cur ++ c ∷ []) part h, append_assoc cur (c ∷ []) part)

-- Every part behind a separator.
abbrev separated : ℕ → List Text → Text
separated sep [] = []
separated sep (p ∷ ps) = sep ∷ (p ++ separated sep ps)

hex-Lacks : (s : Text) → all is_hex_digit s ≡ true → Lacks b'_' s
hex-Lacks [] h = tt
hex-Lacks (c ∷ s) h = (ground arith, hex-Lacks s (ground arith))

-- The parts and the separators spell the text.
separated-split_from :
    (sep : ℕ) (cur s : Text) → separated sep (split_from sep cur s) ≡ sep ∷ (cur ++ s)
unfolding split_from
separated-split_from sep cur [] = refl
separated-split_from sep cur (c ∷ s) = ground (
  arith,
  separated-split_from sep [] s,
  separated-split_from sep (cur ++ c ∷ []) s,
  append_assoc cur (c ∷ []) s,
)

-- `n` hexadecimal digits, of either case.
pub record IsHexOf (n : ℕ) (s : Text) : Type 0 where
  pub size : length s ≡ n
  pub digits : all is_hex_digit s ≡ true

-- The shape of a token: its namespace, prefix and secret with underscores between them.
abbrev pub token_text : Text → Text → Text
token_text prefix secret = token_namespace ++ b'_' ∷ (prefix ++ b'_' ∷ secret)

parse_parts_sound :
    (parts : List Text) (prefix secret : Text)
    → parse_parts parts ≡ some (prefix, secret)
    → (parts ≡ token_namespace ∷ prefix ∷ secret ∷ [])
      × IsHexOf prefix_hex_len prefix
      × IsHexOf secret_hex_len secret
unfolding parse_parts is_hex
parse_parts_sound (n ∷ p ∷ s ∷ []) prefix secret e = ground (arith, text_eq_iff n token_namespace)
parse_parts_sound [] prefix secret e = cc
parse_parts_sound (n ∷ []) prefix secret e = cc
parse_parts_sound (n ∷ p ∷ []) prefix secret e = cc
parse_parts_sound (n ∷ p ∷ s ∷ q ∷ parts) prefix secret e = cc

parse_parts_complete :
    (prefix secret : Text)
    → IsHexOf prefix_hex_len prefix
    → IsHexOf secret_hex_len secret
    → parse_parts (token_namespace ∷ prefix ∷ secret ∷ []) ≡ some (prefix, secret)
unfolding parse_parts is_hex
parse_parts_complete prefix secret hp hs =
    rw (hp.size, hs.size, hp.digits, hs.digits) (unfold text_eq in refl)

split_token :
    (prefix secret : Text)
    → Lacks b'_' prefix
    → Lacks b'_' secret
    → split (token_text prefix secret) b'_' ≡ token_namespace ∷ prefix ∷ secret ∷ []
unfolding split
split_token prefix secret hp hs = rw (
  split_from-append b'_' [] token_namespace (prefix ++ b'_' ∷ secret) (omega arith),
  split_from-append b'_' [] prefix secret hp,
  split_from_last b'_' [] secret hs,
)

-- A text is accepted, with this prefix and secret, exactly when without the white space around it it
-- reads `clt_<prefix>_<secret>`, of 12 and 64 hexadecimal digits.
pub parse_token_iff :
    (raw prefix secret : Text)
    → (parse_token raw ≡ some (prefix, secret)) ↔ (
        (trim_space raw ≡ token_text prefix secret)
        × IsHexOf prefix_hex_len prefix
        × IsHexOf secret_hex_len secret)
unfolding parse_token split
parse_token_iff raw prefix secret = (
  λ e.
      let (parts, hp, hs) =
        parse_parts_sound (split_from b'_' [] (trim_space raw)) prefix secret e in
      let spelled : separated b'_' (token_namespace ∷ prefix ∷ secret ∷ [])
          ≡ b'_' ∷ trim_space raw =
        rw parts at (separated-split_from b'_' [] (trim_space raw)) in
      (cc (append-nil secret), hp, hs),
  λ r.
      rw
        (r.0, split_token prefix secret (hex-Lacks prefix r.1.digits) (hex-Lacks secret r.2.digits))
        (parse_parts_complete prefix secret r.1 r.2),
)
