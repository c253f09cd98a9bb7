-- ===== src/Common/Maps.antt =====
-- Go maps keyed by strings: association lists, the latest write first.
use mathlib.Core.Path.{◌≡◌}
use mathlib.Core.Option.{Option, none, some}
use mathlib.Core.List.{List, [], ◌∷◌}
use chatterloop_developer_se.Common.Tests.{if◌then◌else◌}
use chatterloop_developer_se.Common.Bytes.{Text, text_eq, text_eq_refl}

module _ {ℓ} {V : Type ℓ} where
  unfoldable pub lookup : Text → List (Text × V) → Option V
  lookup k [] = none
  lookup k ((j, v) ∷ m) = if text_eq j k then some v else lookup k m

  abbrev pub insert : Text → V → List (Text × V) → List (Text × V)
  insert k v m = (k, v) ∷ m

  unfoldable pub remove : Text → List (Text × V) → List (Text × V)
  remove k [] = []
  remove k ((j, v) ∷ m) = if text_eq j k then remove k m else (j, v) ∷ remove k m

  -- `m[k] = v` on a map that is iterated over: one entry for each key.
  abbrev pub put : Text → V → List (Text × V) → List (Text × V)
  put k v m = (k, v) ∷ remove k m

  -- `m[k]`, which is the zero value where the key is missing.
  abbrev pub or_else : V → Option V → V
  or_else d none = d
  or_else d (some v) = v

  pub lookup-insert_self :
      (k : Text) (v : V) (m : List (Text × V)) → lookup k (insert k v m) ≡ some v
  unfolding lookup
  lookup-insert_self k v m = rw (text_eq_refl k)
