-- ===== src/Settings/Labels.antt =====
-- Label merging: which side wins.
use k8s_operator_hermes_agen.Common.{
  String, ◌≡◌, Option, none, some, [], arith, StringMap, lookup, or_else, copy, lookup-copy,
}
use k8s_operator_hermes_agen.Settings.{merge_string_maps}

or_else-none {ℓ} : {A : Type ℓ} (o : Option A) → or_else o none ≡ o
or_else-none none = ground arith
or_else-none (some a) = ground arith

-- A key of the merged map has the value of `extra`, or else that of `base`.
pub lookup-merge_string_maps :
    (k : String) (base extra : StringMap)
    → lookup k (merge_string_maps base extra) ≡ or_else (lookup k extra) (lookup k base)
unfolding merge_string_maps lookup
lookup-merge_string_maps k base extra =
    ground (
      arith,
      lookup-copy k (copy [] base) extra,
      lookup-copy k [] base,
      or_else-none (lookup k base),
    )
