-- ===== src/Auth/Middleware/Gate.antt =====
-- Which requests reach a handler, and when a refused one may come back.
use chatterloop_developer_se.Common.{
  ℕ, ◌*◌, ◌+◌, ◌<◌, ◌≤◌, Bool, true, false, Option, none, some, List, [], ◌∷◌, Text, codes, ◌≡◌,
  refl, arith, ◌↔◌, ◌⊎◌, inl, inr, Bool-cases, ap, sym, ◌∙◌,
}
use chatterloop_developer_se.Auth.Token.{
  Token, Verdict, accepted, refused, backend_unavailable, invalid_token, unreadable_scopes,
}
use chatterloop_developer_se.Auth.Authorize.{Decision, decided, unknown_permission, unavailable}
use chatterloop_developer_se.Auth.Window.{second_ns}
use chatterloop_developer_se.Auth.RateLimit.{Limit, allowed, exceeded, check_failed}
use chatterloop_developer_se.Auth.Middleware.{
  Reply, error_reply, served, middleware, require_scope, gated, verified, within_limit, limited,
  parsed, decided_reply, scoped_reply, retry_seconds,
}

served-injective : {t u : Token} → served t ≡ served u → t ≡ u
served-injective {t} e = ap (λ r. elim r [ error_reply _ _ ↦ t | served x ↦ x ]) e

limited-allowed : (l : Limit) (u t : Token) → limited u l ≡ served t → (u ≡ t) × (l ≡ allowed)
limited-allowed allowed u t e = (served-injective e, refl)
limited-allowed (exceeded wait) u t e = cc
limited-allowed check_failed u t e = cc

decided-granted :
    (d : Decision) (u t : Token) → decided_reply u d ≡ served t → (u ≡ t) × (d ≡ decided true)
decided-granted (decided true) u t e = (served-injective e, refl)
decided-granted (decided false) u t e = cc
decided-granted unknown_permission u t e = cc
decided-granted unavailable u t e = cc

module _ {S : Type 0} (fields : Text → List Text) (equal_fold : Text → Text → Bool)
    (verify : Text → Verdict) (limiter : Option (Token → S → Limit × S))
    (authorize : Option Token → Text → Decision) (permission header : Text) (s : S) where
  -- What a request must bring: a bearer header of two fields, a token that verifies, room in its
  -- limit where there is a limiter, and the permission of the route.
  pub record Entitled (t : Token) : Type 0 where
    pub scheme : Text
    pub raw : Text
    pub header_fields : fields header ≡ scheme ∷ raw ∷ []
    pub bearer : equal_fold scheme (codes "bearer") ≡ true
    pub verifies : verify raw ≡ accepted t
    pub has_room :
        (limiter ≡ none)
        ⊎ ((check : Token → S → Limit × S) × (limiter ≡ some check) × ((check t s).0 ≡ allowed))
    pub grants : authorize (some t) permission ≡ decided true

  limited-served :
      (o : Option (Token → S → Limit × S)) (t u : Token)
      → (within_limit o u s).0 ≡ served t
      → (u ≡ t)
        × ((o ≡ none)
            ⊎ ((check : Token → S → Limit × S) × (o ≡ some check) × ((check u s).0 ≡ allowed)))
  limited-served none t u e = (served-injective e, inl refl)
  limited-served (some check) t u e =
      let (same, room) = limited-allowed (check u s).0 u t e in (same, inr (check, refl, room))

  verified-served :
      (v : Verdict) (t : Token)
      → (verified limiter v s).0 ≡ served t
      → (v ≡ accepted t)
        × ((limiter ≡ none)
            ⊎ ((check : Token → S → Limit × S) × (limiter ≡ some check)
                × ((check t s).0 ≡ allowed)))
  verified-served (refused backend_unavailable) t e = cc
  verified-served (refused invalid_token) t e = cc
  verified-served (refused unreadable_scopes) t e = cc
  verified-served (accepted u) t e =
      let (same, room) = limited-served limiter t u e in rw (← same) (refl, room)

  -- The header has two fields, the first of which reads bearer.
  abbrev Bearer : List Text → Text → Text → Type 0
  Bearer parts scheme raw =
      (parts ≡ scheme ∷ raw ∷ []) × (equal_fold scheme (codes "bearer") ≡ true)

  scoped-served :
      (r : Reply) (t : Token)
      → scoped_reply authorize permission r ≡ served t
      → (r ≡ served t) × (authorize (some t) permission ≡ decided true)
  unfolding require_scope
  scoped-served (error_reply status retry) t e = cc
  scoped-served (served u) t e =
      let (same, granted) = decided-granted (authorize (some u) permission) u t e in
      (ap served same, rw (← same) granted)

  -- What Middleware does with a header of these fields.
  abbrev Through : List Text → Reply
  Through parts = (parsed equal_fold verify limiter parts s).0

  through_other :
      (scheme raw : Text)
      → equal_fold scheme (codes "bearer") ≡ false
      → Through (scheme ∷ raw ∷ []) ≡ error_reply 401 none
  through_other scheme raw e = ground arith

  through_bearer :
      (scheme raw : Text)
      → equal_fold scheme (codes "bearer") ≡ true
      → Through (scheme ∷ raw ∷ []) ≡ (verified limiter (verify raw) s).0
  through_bearer scheme raw e = ground arith

  through-Entitled :
      (parts : List Text) (t : Token)
      → fields header ≡ parts
      → scoped_reply authorize permission (Through parts) ≡ served t
      → Entitled t
  through-Entitled [] t e h = cc
  through-Entitled (scheme ∷ []) t e h = cc
  through-Entitled (scheme ∷ raw ∷ c ∷ more) t e h = cc
  through-Entitled (scheme ∷ raw ∷ []) t e h =
      let (passed, granted) = scoped-served (Through (scheme ∷ raw ∷ [])) t h in
      elim (Bool-cases (equal_fold scheme (codes "bearer"))) [
        | inr other ↦ cc (through_other scheme raw other, passed)
        | inl bearer ↦
            let (verifies, room) =
              verified-served (verify raw) t (sym (through_bearer scheme raw bearer) ∙ passed) in
            record {
              scheme = scheme;
              raw = raw;
              header_fields = e;
              bearer = bearer;
              verifies = verifies;
              has_room = room;
              grants = granted;
            }
      ]

  room-served :
      (t : Token)
      → authorize (some t) permission ≡ decided true
      → (limiter ≡ none)
        ⊎ ((check : Token → S → Limit × S) × (limiter ≡ some check) × ((check t s).0 ≡ allowed))
      → scoped_reply authorize permission (within_limit limiter t s).0 ≡ served t
  unfolding require_scope
  room-served t g (inl off) = rw (off, g)
  room-served t g (inr (check, on, room)) = rw (on, room, g)

  -- A request reaches the handler of a route with a token exactly when it is entitled to.
  pub gated_iff :
      (t : Token)
      → ((gated fields equal_fold verify limiter authorize permission header s).0 ≡ served t)
        ↔ Entitled t
  unfolding gated middleware
  gated_iff t = (
    through-Entitled (fields header) t refl,
    λ e. rw (middleware, e.header_fields, e.bearer, e.verifies) (room-served t e.grants e.has_room),
  )

-- A request that is refused for its rate is told whole seconds after which the window that refused
-- it is over: more nanoseconds than are left of it, and at most one second more.
pub retry_seconds-outlasts :
    (wait : ℕ)
    → (wait < retry_seconds wait * second_ns) × (retry_seconds wait * second_ns ≤ wait + second_ns)
retry_seconds-outlasts wait = (omega arith, omega arith)
