-- ===== src/Common/Maps.antt =====
-- Go's maps with text keys as association lists. The order of the entries stands for nothing: what
-- is stated of a map is stated of its lookups.
use Prim.Native.String.{String}
use mathlib.Core.Path.{◌≡◌, refl}
use mathlib.Core.Option.{Option, none, some}
use mathlib.Core.List.{List, [], ◌∷◌}
use native.Mathlib.Omega.{arith}
use text.Mathlib.Text.{◌==◌}
use text.Mathlib.TextEquality.{eq_iff}
use k8s_operator_hermes_agen.Common.Tests.{if◌then◌else◌}

abbrev pub Map {ℓ} : Type ℓ → Type ℓ
Map V = List (String × V)

abbrev pub StringMap : Type 0
StringMap = Map String

-- The value of `o`, or else `p`.
abbrev pub or_else {ℓ} : {A : Type ℓ} → Option A → Option A → Option A
or_else (some a) p = some a
or_else none p = p

module _ {ℓ} {V : Type ℓ} where
  unfoldable pub lookup : String → Map V → Option V
  lookup k [] = none
  lookup k ((j, v) ∷ m) = if j == k then some v else lookup k m

  unfoldable pub insert : String → V → Map V → Map V
  insert k v [] = (k, v) ∷ []
  insert k v ((j, w) ∷ m) = if j == k then (k, v) ∷ m else (j, w) ∷ insert k v m

  -- `maps.Copy(dst, src)`
  unfoldable pub copy : Map V → Map V → Map V
  copy dst [] = dst
  copy dst ((k, v) ∷ src) = insert k v (copy dst src)

  -- An insertion is seen under its own key only.
  pub lookup-insert :
      (m : Map V) (stored asked : String) (value : V)
      → lookup asked (insert stored value m)
        ≡ (if stored == asked then some value else lookup asked m)
  unfolding lookup insert
  lookup-insert [] stored asked value = refl
  lookup-insert ((key, old) ∷ rest) stored asked value = ground (
    arith,
    lookup-insert rest stored asked value,
    eq_iff stored asked,
    eq_iff key stored,
    eq_iff key asked,
  )

  pub lookup-copy :
      (k : String) (dst src : Map V)
      → lookup k (copy dst src) ≡ or_else (lookup k src) (lookup k dst)
  unfolding lookup copy
  lookup-copy k dst [] = refl
  lookup-copy k dst ((j, v) ∷ src) =
      ground (arith, lookup-copy k dst src, lookup-insert (copy dst src) j k v)
