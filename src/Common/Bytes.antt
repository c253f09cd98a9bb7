-- ===== src/Common/Bytes.antt =====
-- Go strings as lists of bytes, with the functions of package strings that the service calls.
use Prim.Native.Nat.{ℕ, ◌+◌, ◌<◌}
use Prim.Native.Char.{code}
use Prim.Native.String.{String}
use mathlib.Core.Path.{◌≡◌, refl}
use mathlib.Core.Logic.{◌↔◌, inl, inr}
use mathlib.Core.Bool.{Bool, true, false, not, ◌&&◌, ◌||◌}
use mathlib.Core.List.{List, [], ◌∷◌, ◌++◌, reverse}
use native.Mathlib.Omega.{arith}
use chatterloop_developer_se.Common.Tests.{◌==◌, leb, if◌then◌else◌, Bool-cases}
use chatterloop_developer_se.Common.Lists.{All}

abbrev pub Text : Type 0
Text = List ℕ

-- The code points of a literal, which are its bytes, since every literal here is ASCII.
abbrev pub codes : String → Text
codes String.[] = []
codes (String.◌∷◌ c s) = code c ∷ codes s

-- `==` on strings.
unfoldable pub text_eq : Text → Text → Bool
text_eq [] [] = true
text_eq [] (_ ∷ _) = false
text_eq (_ ∷ _) [] = false
text_eq (a ∷ s) (b ∷ t) = a == b && text_eq s t

abbrev pub is_empty : Text → Bool
is_empty [] = true
is_empty (_ ∷ _) = false

pub text_eq→eq : (s t : Text) → text_eq s t ≡ true → s ≡ t
unfolding text_eq
text_eq→eq [] [] h = refl
text_eq→eq [] (b ∷ t) h = cc
text_eq→eq (a ∷ s) [] h = cc
text_eq→eq (a ∷ s) (b ∷ t) h = ground (arith, text_eq→eq s t)

pub text_eq_refl : (s : Text) → text_eq s s ≡ true
unfolding text_eq
text_eq_refl [] = refl
text_eq_refl (a ∷ s) = ground (arith, text_eq_refl s)

pub eq→text_eq : (s t : Text) → s ≡ t → text_eq s t ≡ true
eq→text_eq s t e = rw e (text_eq_refl t)

pub text_eq_iff : (s t : Text) → (text_eq s t ≡ true) ↔ (s ≡ t)
text_eq_iff s t = (text_eq→eq s t, eq→text_eq s t)

-- `seen[v]`, for a map to bool that is only ever set to true: the list of its keys.
unfoldable pub contains : Text → List Text → Bool
contains v [] = false
contains v (x ∷ xs) = text_eq x v || contains v xs

pub contains-append :
    (v : Text) (xs ys : List Text) → contains v (xs ++ ys) ≡ (contains v xs || contains v ys)
unfolding contains
contains-append v [] ys = refl
contains-append v (x ∷ xs) ys = ground (arith, contains-append v xs ys)

pub contains-concat_self : (v : Text) (xs : List Text) → contains v (xs ++ v ∷ []) ≡ true
unfolding contains
contains-concat_self v xs = ground (arith, contains-append v xs (v ∷ []), text_eq_refl v)

-- No element stands in the list twice.
abbrev pub Distinct : List Text → Type 0
Distinct [] = Unit
Distinct (x ∷ xs) = (contains x xs ≡ false) × Distinct xs

pub Distinct-concat :
    (xs : List Text) (v : Text) → Distinct xs → contains v xs ≡ false → Distinct (xs ++ v ∷ [])
unfolding contains
Distinct-concat [] v _ _ = ground arith
Distinct-concat (x ∷ xs) v (fresh, d) h = (
  ground (arith, contains-append x xs (v ∷ []), text_eq_iff v x, text_eq_iff x v),
  Distinct-concat xs v d (ground arith),
)

-- `delete(seen, v)`, on the keys of such a map.
unfoldable pub without : Text → List Text → List Text
without v [] = []
without v (x ∷ xs) = let rest = without v xs in if text_eq x v then rest else x ∷ rest

pub contains-without :
    (v : Text) (xs : List Text) (x : Text)
    → contains x (without v xs) ≡ (contains x xs && not (text_eq x v))
unfolding without contains
contains-without v [] x = refl
contains-without v (y ∷ xs) x = elim (Bool-cases (text_eq y x)) [
  | inl same ↦ rw (text_eq→eq y x same) (ground (arith, contains-without v xs x))
  | inr other ↦ ground (arith, contains-without v xs x)
]

pub without-Distinct : (v : Text) (xs : List Text) → Distinct xs → Distinct (without v xs)
unfolding without
without-Distinct v [] d = tt
without-Distinct v (x ∷ xs) (fresh, d) =
    ground (arith, without-Distinct v xs d, contains-without v xs x)

-- The bytes that RE2 and the platform count as white space in ASCII.
abbrev pub is_ascii_space : ℕ → Bool
is_ascii_space c = c == b' ' || leb 9 c && leb c 13

-- `strings.TrimRight(s, string(c))`: drops every `c` at the end.
trim_rev : ℕ → Text → Text
trim_rev c [] = []
trim_rev c (d ∷ s) = if d == c then trim_rev c s else d ∷ s

unfoldable pub trim_right : Text → ℕ → Text
unfolding trim_rev
trim_right s c = reverse (trim_rev c (reverse s))

-- One white space rune of Unicode at the head: two or three bytes of its UTF-8 form.
abbrev pub is_space2 : ℕ → ℕ → Bool
is_space2 a b = a == 0xC2 && (b == 0x85 || b == 0xA0)

abbrev pub is_space3 : ℕ → ℕ → ℕ → Bool
is_space3 a b c =
    a == 0xE1 && b == 0x9A && c == 0x80
    || a == 0xE2
      && (b == 0x80 && (leb 0x80 c && leb c 0x8A || c == 0xA8 || c == 0xA9 || c == 0xAF)
          || b == 0x81 && c == 0x9F)
    || a == 0xE3 && b == 0x80 && c == 0x80

trim_front : Text → Text
trim_front [] = []
trim_front (a ∷ []) = if is_ascii_space a then [] else a ∷ []
trim_front (a ∷ b ∷ []) =
    let one = trim_front (b ∷ []) in
    if is_ascii_space a then one else if is_space2 a b then [] else a ∷ b ∷ []
trim_front (a ∷ b ∷ c ∷ s) =
    let one = trim_front (b ∷ c ∷ s) in
    let two = trim_front (c ∷ s) in
    let three = trim_front s in
    if is_ascii_space a
    then one
    else if is_space2 a b
    then two
    else if is_space3 a b c
    then three
    else a ∷ b ∷ c ∷ s

-- The same from the end: the bytes of a rune stand in reverse order.
trim_back : Text → Text
trim_back [] = []
trim_back (a ∷ []) = if is_ascii_space a then [] else a ∷ []
trim_back (a ∷ b ∷ []) =
    let one = trim_back (b ∷ []) in
    if is_ascii_space a then one else if is_space2 b a then [] else a ∷ b ∷ []
trim_back (a ∷ b ∷ c ∷ s) =
    let one = trim_back (b ∷ c ∷ s) in
    let two = trim_back (c ∷ s) in
    let three = trim_back s in
    if is_ascii_space a
    then one
    else if is_space2 b a
    then two
    else if is_space3 c b a
    then three
    else a ∷ b ∷ c ∷ s

-- `strings.TrimSpace`.
unfoldable pub trim_space : Text → Text
unfolding trim_front trim_back
trim_space s = reverse (trim_back (reverse (trim_front s)))

trim_space_test : trim_space (codes " \n a b\t") ≡ codes "a b"
unfolding trim_space
trim_space_test = refl

-- `strings.ToLower`, which is byte-wise on ASCII and looks Unicode's tables up for the rest.
abbrev pub lower_byte : ℕ → ℕ
lower_byte c = if leb b'A' c && leb c b'Z' then c + 32 else c

abbrev pub IsAscii : Text → Type 0
IsAscii = All (λ c. c < 128)
