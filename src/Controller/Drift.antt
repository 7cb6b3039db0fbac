-- ===== src/Controller/Drift.antt =====
-- Drift of the immutable fields of a PersistentVolumeClaim.
pub mod Order
use k8s_operator_hermes_agen.Common.{
  String, ◌==◌, ◌<>◌, Bool, true, false, not, ◌&&◌, Option, none, some, List, [], ◌∷◌, ◌++◌, eqb,
  length, leb_text, if◌then◌else◌,
}
use k8s_operator_hermes_agen.Api.{HermesAgent, PersistentVolumeClaimSpec}
use k8s_operator_hermes_agen.FileMounts.{is_set}
use k8s_operator_hermes_agen.Controller.Exec.{DriftError}

-- `slices.Sort` on texts
unfoldable pub insert_text : String → List String → List String
insert_text x [] = x ∷ []
insert_text x (y ∷ ys) = if leb_text x y then x ∷ y ∷ ys else y ∷ insert_text x ys

unfoldable pub sort_texts : List String → List String
unfolding insert_text
sort_texts [] = []
sort_texts (x ∷ xs) = insert_text x (sort_texts xs)

-- `apiequality.Semantic.DeepEqual` on lists of texts
unfoldable pub equal_texts : List String → List String → Bool
equal_texts [] [] = true
equal_texts (x ∷ xs) (y ∷ ys) = x == y && equal_texts xs ys
equal_texts _ _ = false

unfoldable pub equal_persistent_volume_access_modes : List String → List String → Bool
unfolding sort_texts equal_texts
equal_persistent_volume_access_modes left right =
    if not (eqb (length left) (length right))
    then false
    else equal_texts (sort_texts left) (sort_texts right)

unfoldable pub equal_optional_string : Option String → Option String → Bool
equal_optional_string none none = true
equal_optional_string (some l) (some r) = l == r
equal_optional_string _ _ = false

abbrev pub access_modes_field : String
access_modes_field = "spec.storage.persistence.accessModes"

abbrev pub storage_class_field : String
storage_class_field = "spec.storage.persistence.storageClassName"

-- `if bad { drift = append(drift, field) }`
abbrev pub field_if : Bool → String → List String
field_if true f = f ∷ []
field_if false f = []

unfoldable pub persistent_volume_claim_immutable_field_drift :
    HermesAgent → PersistentVolumeClaimSpec → PersistentVolumeClaimSpec → List String
unfolding equal_optional_string
persistent_volume_claim_immutable_field_drift a existing desired =
    field_if (not (equal_persistent_volume_access_modes existing.access_modes desired.access_modes))
      access_modes_field
    ++ field_if
        (is_set a.spec.persistence.storage_class_name
          && not (equal_optional_string existing.storage_class_name desired.storage_class_name))
        storage_class_field

unfoldable pub persistent_volume_claim_drift_remediation : HermesAgent → String → String
persistent_volume_claim_drift_remediation a pvc_name =
    "Supported remediation: create a new HermesAgent with a different name for a fresh PVC, or back up Hermes state, delete PersistentVolumeClaim "
    <> pvc_name <> ", and re-apply HermesAgent " <> a.name

unfoldable pub new_persistent_volume_claim_spec_drift_error :
    HermesAgent → String → List String → DriftError
unfolding persistent_volume_claim_drift_remediation
new_persistent_volume_claim_spec_drift_error a pvc_name fields = record {
  name = pvc_name;
  fields = fields;
  remediation = persistent_volume_claim_drift_remediation a pvc_name;
}
