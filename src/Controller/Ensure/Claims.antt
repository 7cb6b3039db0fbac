-- ===== src/Controller/Ensure/Claims.antt =====
-- What a reconciliation changes of the claim that it finds.
use mathlib.Core.List.{Perm}
use k8s_operator_hermes_agen.Common.{
  ◌≡◌, ◌≢◌, ◌↔◌, ◌⊎◌, inl, inr, refl, ap, Bool, true, false, not, ◌&&◌, Option, none, some, List,
  [], ◌∷◌, ◌++◌, String, eq_iff, ok, err,
}
use k8s_operator_hermes_agen.FileMounts.{is_set}
use k8s_operator_hermes_agen.Api.{HermesAgent, PersistentVolumeClaimSpec}
use k8s_operator_hermes_agen.Objects.{Built}
use k8s_operator_hermes_agen.Controller.Exec.{drifted, DriftError}
use k8s_operator_hermes_agen.Controller.Client.{
  OwnerReference, Ownership, IsOwnership, Claim, ClaimStatus,
}
use k8s_operator_hermes_agen.Controller.Drift.{
  persistent_volume_claim_immutable_field_drift, new_persistent_volume_claim_spec_drift_error,
  equal_persistent_volume_access_modes, equal_optional_string, field_if, access_modes_field,
  storage_class_field,
}
use k8s_operator_hermes_agen.Controller.Drift.Order.{equal_persistent_volume_access_modes-Perm}
use k8s_operator_hermes_agen.Controller.Ensure.{take_control, mutate_claim, resized_claim}
use k8s_operator_hermes_agen.Controller.Ensure.Converge.{take_control-ok}

-- A claim agrees with the desired one in the fields that cannot be changed: its access modes are the
-- same up to their order, and so is its storage class unless the agent leaves it open.
abbrev pub SameFields : HermesAgent → PersistentVolumeClaimSpec → PersistentVolumeClaimSpec → Type 0
SameFields a existing desired =
    Perm existing.access_modes desired.access_modes
    × ((is_set a.spec.persistence.storage_class_name ≡ false)
        ⊎ (existing.storage_class_name ≡ desired.storage_class_name))

equal_optional_string_iff : (l r : Option String) → (equal_optional_string l r ≡ true) ↔ (l ≡ r)
unfolding equal_optional_string
equal_optional_string_iff none none = (λ h. refl, λ h. refl)
equal_optional_string_iff none (some y) = (λ h. absurd (cc), λ h. absurd (cc))
equal_optional_string_iff (some x) none = (λ h. absurd (cc), λ h. absurd (cc))
equal_optional_string_iff (some x) (some y) =
    (λ h. ap some ((eq_iff x y).0 h), λ h. let e : x ≡ y = cc in (eq_iff x y).1 e)

-- The two parts of a drift are empty exactly if both tests fail.
no_fields :
    (alike given same : Bool) (f g : String)
    → (field_if (not alike) f ++ field_if (given && not same) g ≡ [])
      ↔ ((alike ≡ true) × ((given ≡ false) ⊎ (same ≡ true)))
no_fields false given same f g = (λ h. absurd (cc), λ (alike, rest). absurd (cc))
no_fields true false same f g = (λ h. (refl, inl refl), λ h. refl)
no_fields true true true f g = (λ h. (refl, inr refl), λ h. refl)
no_fields true true false f g =
    (λ h. absurd (cc), λ (_, h). elim h [ inl e ↦ absurd (cc) | inr e ↦ absurd (cc) ])

drift-SameFields :
    (a : HermesAgent) (existing desired : PersistentVolumeClaimSpec)
    → (persistent_volume_claim_immutable_field_drift a existing desired ≡ [])
      ↔ SameFields a existing desired
unfolding persistent_volume_claim_immutable_field_drift
drift-SameFields a existing desired =
    let modes =
      equal_persistent_volume_access_modes-Perm existing.access_modes desired.access_modes in
    let class = equal_optional_string_iff existing.storage_class_name desired.storage_class_name in
    let fields =
      no_fields (equal_persistent_volume_access_modes existing.access_modes desired.access_modes)
        (is_set a.spec.persistence.storage_class_name)
        (equal_optional_string existing.storage_class_name desired.storage_class_name)
        access_modes_field storage_class_field in
    (
      λ h.
          let (m, c) = fields.0 h in
          (modes.0 m, elim c [ inl unset ↦ inl unset | inr e ↦ inr (class.0 e) ]),
      λ (m, c). fields.1 (modes.1 m, elim c [ inl unset ↦ inl unset | inr e ↦ inr (class.1 e) ]),
    )

module _ (own : Ownership) (law : IsOwnership own) (a : HermesAgent) where
  after_drift :
      (desired : Built PersistentVolumeClaimSpec) (c c' : Claim) (drift : List String)
      → persistent_volume_claim_immutable_field_drift a c.spec desired.spec ≡ drift
      → mutate_claim own a true desired c ≡ ok c'
      → (drift ≡ [])
        × (c'.spec ≡ record (c.spec) { requests = desired.spec.requests })
        × (c'.status ≡ c.status)
        × (own.is_controlled_by c'.owners a ≡ true)
  unfolding mutate_claim
  after_drift desired c c' [] d e =
      let (owners, mine, eq) =
        take_control-ok own law a PersistentVolumeClaimSpec ClaimStatus
          (resized_claim own a desired c) c' (rw (d, mutate_claim) at e) in
      (refl, rw (eq), rw (eq), rw (eq) mine)
  after_drift desired c c' (x ∷ xs) d e = let fails = rw (d, mutate_claim) at e in absurd (cc)

  -- An existing claim that is reconciled without an error had no drift. Its access modes, its storage
  -- class and its status are what they were, its request is the one asked for, and the agent
  -- controls it.
  pub mutate_claim-existing :
      (desired : Built PersistentVolumeClaimSpec) (c c' : Claim)
      → mutate_claim own a true desired c ≡ ok c'
      → (persistent_volume_claim_immutable_field_drift a c.spec desired.spec ≡ [])
        × (c'.spec ≡ record (c.spec) { requests = desired.spec.requests })
        × (c'.status ≡ c.status)
        × (own.is_controlled_by c'.owners a ≡ true)
  mutate_claim-existing desired c c' e = after_drift desired c c' _ refl e

module _ (own : Ownership) (a : HermesAgent) where
  accepted :
      (desired : Built PersistentVolumeClaimSpec) (c : Claim) (owners : List OwnerReference)
      → own.set_controller_reference a c.owners ≡ ok owners
      → persistent_volume_claim_immutable_field_drift a c.spec desired.spec ≡ []
      → mutate_claim own a true desired c
        ≡ ok (record (resized_claim own a desired c) { owners = owners })
  unfolding mutate_claim take_control
  accepted desired c owners free same = rw (same, free, mutate_claim, take_control) refl

  refused :
      (desired : Built PersistentVolumeClaimSpec) (c : Claim) (drift : List String)
      → persistent_volume_claim_immutable_field_drift a c.spec desired.spec ≡ drift
      → drift ≢ []
      → (d : DriftError) × (mutate_claim own a true desired c ≡ err (drifted d)) × (d.name ≡ c.name)
  unfolding mutate_claim new_persistent_volume_claim_spec_drift_error
  refused desired c [] e some_field = absurd (some_field refl)
  refused desired c (x ∷ xs) e some_field = (
    new_persistent_volume_claim_spec_drift_error a c.name (x ∷ xs),
    rw (e, mutate_claim) refl,
    refl,
  )

  -- An existing claim that the agent may control is refused with the drift error, which names the claim,
  -- exactly if it disagrees with the desired one in a field that cannot be changed: in the access modes
  -- beyond their order, or in the storage class where the agent names one.
  pub mutate_claim-refused :
      (desired : Built PersistentVolumeClaimSpec) (c : Claim) (owners : List OwnerReference)
      → own.set_controller_reference a c.owners ≡ ok owners
      → ((d : DriftError) × (mutate_claim own a true desired c ≡ err (drifted d))
          × (d.name ≡ c.name))
        ↔ ¬ SameFields a c.spec desired.spec
  mutate_claim-refused desired c owners free = (
    λ (d, fails, named) same.
        let fine =
          accepted desired c owners free ((drift-SameFields a c.spec desired.spec).1 same) in
        absurd (cc),
    λ differs.
        refused desired c _ refl
          (λ same. differs ((drift-SameFields a c.spec desired.spec).0 same)),
  )
