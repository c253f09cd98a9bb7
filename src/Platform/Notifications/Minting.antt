-- ===== src/Platform/Notifications/Minting.antt =====
-- What ids are minted.
use chatterloop_developer_se.Common.{
  ℕ, zero, suc, ◌+◌, ◌*◌, ◌/◌, ◌%◌, ◌≤◌, ◌<◌, ltb, digits, decimal, false, [], ◌∷◌, ◌&&◌, Bool,
  true, some, Text, ◌≡◌, arith, Fetched, found, ◌==◌, Option, leb, all, length, Option-cases, inl,
  inr, query_cases, Bool-cases,
}
use mathlib.Core.Option.{some-injective}
use chatterloop_developer_se.Platform.Notifications.{
  unique_id, random_digits, unique_message_id, random_notification_digits,
}

abbrev pub is_digit : ℕ → Bool
is_digit c = leb b'0' c && leb c b'9'

-- An id that is returned was drawn at some attempt, and nothing has it.
unique_id-fresh :
    (left : ℕ) (draw : ℕ → Option Text) (count : Text → Fetched ℕ) (attempt : ℕ) (id : Text)
    → unique_id left draw count attempt ≡ some id
    → (count id ≡ found 0) × ((k : ℕ) × (draw k ≡ some id))
unfolding unique_id
unique_id-fresh zero draw count attempt id e = cc
unique_id-fresh (suc left) draw count attempt id e = elim (Option-cases (draw attempt)) [
  | inl failed ↦ cc (rw (unique_id, failed) at e)
  | inr (candidate, drawn) ↦ elim (query_cases (count candidate)) [
    | inr (inl none') ↦ cc (rw (unique_id, drawn, none') at e)
    | inr (inr failed) ↦ cc (rw (unique_id, drawn, failed) at e)
    | inl (n, counted) ↦ elim (Bool-cases (n == 0)) [
      | inr taken ↦
          unique_id-fresh left draw count (suc attempt) id
            (rw (unique_id, drawn, counted, taken) at e)
      | inl free ↦
          let same : candidate ≡ id = ground arith in rw (← same) (ground arith, (attempt, drawn))
    ]
  ]
]

random_digits-digits :
    (random : ℕ → Option ℕ) (i left : ℕ) (out : Text)
    → ((k n : ℕ) → random k ≡ some n → n < 10)
    → random_digits random i left ≡ some out
    → (length out ≡ left) × (all is_digit out ≡ true)
unfolding random_digits
random_digits-digits random i zero out below e = ground arith
random_digits-digits random i (suc left) out below e = elim (Option-cases (random i)) [
  | inl failed ↦ cc (rw (random_digits, failed) at e)
  | inr (n, drawn) ↦ elim (Option-cases (random_digits random (suc i) left)) [
    | inl failed ↦ cc (rw (random_digits, drawn, failed) at e)
    | inr (rest, more) ↦
        let ih = random_digits-digits random (suc i) left rest below more in
        let small : n < 10 = below i n drawn in ground arith
  ]
]

-- A message id that is returned belongs to no message, and it is thirty decimal digits, where the
-- random source answers numbers below ten.
pub unique_message_id-fresh :
    (random : ℕ → ℕ → Option ℕ) (count : Text → Fetched ℕ) (id : Text)
    → ((attempt i n : ℕ) → random attempt i ≡ some n → n < 10)
    → unique_message_id random count ≡ some id
    → (count id ≡ found 0) × (length id ≡ 30) × (all is_digit id ≡ true)
unfolding unique_message_id
unique_message_id-fresh random count id below e =
    let (free, (k, drawn)) = unique_id-fresh 5 (λ a. random_digits (random a) 0 30) count 0 id e in
    let digits = random_digits-digits (random k) 0 30 id (below k) drawn in
    (free, digits.0, digits.1)

unfoldable pow10 : ℕ → ℕ
pow10 zero = 1
pow10 (suc k) = 10 * pow10 k

pow10_positive : (k : ℕ) → 1 ≤ pow10 k
unfolding pow10
pow10_positive zero = omega arith
pow10_positive (suc k) = omega (arith, pow10_positive k)

length-digits :
    (fuel n k : ℕ) (out : Text)
    → n < fuel
    → pow10 k ≤ n
    → n < pow10 (suc k)
    → length (digits fuel n out) ≡ suc k + length out
unfolding digits pow10
length-digits zero n k out h low high = absurd (omega arith)
length-digits (suc fuel) n zero out h low high = ground arith
length-digits (suc fuel) n (suc k) out h low high =
    let more : ltb n 10 ≡ false = ground (arith, pow10_positive k) in
    rw more (
      omega (
        arith,
        length-digits fuel (n / 10) k ((b'0' + n % 10) ∷ out) (omega arith) (omega arith)
            (omega arith),
      ))

-- The digits of a notification's id are twenty, whatever is drawn.
pub length-random_notification_digits :
    (offset : ℕ) (out : Text)
    → offset < 90000000000000000000
    → random_notification_digits (some offset) ≡ some out
    → length out ≡ 20
unfolding random_notification_digits decimal pow10
length-random_notification_digits offset out h e =
    let n = offset + 10000000000000000000 in
    let twenty : length (decimal n) ≡ 20 =
      omega (arith, length-digits (suc n) n 19 [] (omega arith) (omega arith) (omega arith)) in
    rw (← some-injective _ _ e) twenty
