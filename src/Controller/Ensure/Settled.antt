-- ===== src/Controller/Ensure/Settled.antt =====
-- Writing a claim that was just written.
use k8s_operator_hermes_agen.Common.{
  ◌≡◌, refl, ◌∙◌, String, eq_refl, Bool, true, false, not, ◌&&◌, Option, none, some, List, [], ok,
  Bool-cases, inl, inr, Result, StringMap,
}
use k8s_operator_hermes_agen.Api.{HermesAgent, PersistentVolumeClaimSpec}
use k8s_operator_hermes_agen.Settings.{merge_string_maps}
use k8s_operator_hermes_agen.FileMounts.{is_set}
use k8s_operator_hermes_agen.Objects.{Built}
use k8s_operator_hermes_agen.Controller.Exec.{Error}
use k8s_operator_hermes_agen.Controller.Client.{
  Object, OwnerReference, Ownership, IsOwnership, ClaimStatus, Claim,
}
use k8s_operator_hermes_agen.Controller.Drift.{
  persistent_volume_claim_immutable_field_drift, equal_optional_string, field_if,
  storage_class_field,
}
use k8s_operator_hermes_agen.Controller.Drift.Order.{alike_sorted}
use k8s_operator_hermes_agen.Controller.Ensure.{
  take_control, mutate_claim, no_drift, labelled_claim, resized_claim,
}
use k8s_operator_hermes_agen.Controller.Ensure.Converge.{
  Agree, merge-again, take_control-ok, take_control-again,
}

-- A closure that is given what it wrote succeeds, and changes nothing.
abbrev pub Settles :
    {Spec Status : Type 0}
    → (first again : Object Spec Status → Result Error (Object Spec Status)) → Type 0
Settles {Spec} {Status} first again =
    (o o' : Object Spec Status)
    → first o ≡ ok o'
    → (o'' : Object Spec Status) × (again o' ≡ ok o'') × Agree Spec Status o'' o'

module _ (own : Ownership) (law : IsOwnership own) (a : HermesAgent) where
  -- A closure that adds labels and sets the spec, and one that does the same again.
  labelled-Settles :
      {Spec Status : Type 0}
      → (labels : StringMap) → (spec spec' : Object Spec Status → Spec)
      → ((o : Object Spec Status) (ls : StringMap) (owners : List OwnerReference)
          → spec' (record o { labels = ls; spec = spec o; owners = owners }) ≡ spec o)
      → Settles
          (λ o.
            take_control own a
              (record o { labels = merge_string_maps o.labels labels; spec = spec o }))
          (λ o.
            take_control own a
              (record o { labels = merge_string_maps o.labels labels; spec = spec' o }))
  labelled-Settles {Spec} {Status} labels spec spec' settled o o' e =
      let (owners, mine, eq) =
        take_control-ok own law a Spec Status
          (record o { labels = merge_string_maps o.labels labels; spec = spec o }) o' e in
      (
        record o' { labels = merge_string_maps o'.labels labels; spec = spec' o' },
        rw (eq) (take_control-again own law a Spec Status _ mine),
        rw (eq) (record {
          same_name = refl;
          same_namespace = refl;
          same_labels = λ k. merge-again k o.labels labels;
          same_annotations = λ k. refl;
          same_owners = refl;
          same_spec = settled o _ owners;
        }),
      )

  equal_optional_string_self : (o : Option String) → equal_optional_string o o ≡ true
  unfolding equal_optional_string
  equal_optional_string_self none = refl
  equal_optional_string_self (some x) = eq_refl x

  no_field : (b : Bool) (f : String) → b ≡ true → field_if (not b) f ≡ []
  no_field b f h = rw (h) refl

  no_class_field : (given b : Bool) (f : String) → b ≡ true → field_if (given && not b) f ≡ []
  no_class_field true b f h = rw (h) refl
  no_class_field false b f h = refl

  drift_self :
      (spec : PersistentVolumeClaimSpec)
      → persistent_volume_claim_immutable_field_drift a spec spec ≡ []
  unfolding persistent_volume_claim_immutable_field_drift
  drift_self spec =
      rw
        (
          alike_sorted spec.access_modes spec.access_modes refl,
          equal_optional_string_self spec.storage_class_name,
          no_class_field (is_set a.spec.persistence.storage_class_name) true storage_class_field
              refl,
        )
        refl

  -- The claim whose labels and request are those desired.
  resized-Settles :
      (desired : Built PersistentVolumeClaimSpec) (spec : Claim → PersistentVolumeClaimSpec)
      → ((c : Claim) → record (spec c) { requests = desired.spec.requests } ≡ spec c)
      → Settles
          (λ c. take_control own a (record (labelled_claim own a desired c) { spec = spec c }))
          (λ c. take_control own a (resized_claim own a desired c))
  resized-Settles desired spec settled =
      labelled-Settles desired.labels spec
        (λ c. record (c.spec) { requests = desired.spec.requests }) (λ c ls owners. settled c)

  claim_written :
      (desired : Built PersistentVolumeClaimSpec) (c : Claim)
      → no_drift own a (persistent_volume_claim_immutable_field_drift a c.spec desired.spec) ≡ true
      → mutate_claim own a true desired c ≡ take_control own a (resized_claim own a desired c)
  unfolding mutate_claim
  claim_written desired c same = rw (same) refl

  -- The requests of a claim are not immutable.
  requests_kept :
      (spec desired : PersistentVolumeClaimSpec) (requests : String)
      → no_drift own a (persistent_volume_claim_immutable_field_drift a spec desired) ≡ true
      → no_drift own a (
          persistent_volume_claim_immutable_field_drift a
            (record spec { requests = requests })
            desired)
        ≡ true
  unfolding persistent_volume_claim_immutable_field_drift
  requests_kept spec desired requests same = same

  -- A claim whose spec has the desired request and no drift, after it was written.
  written-again :
      (desired : Built PersistentVolumeClaimSpec) (spec : PersistentVolumeClaimSpec) (c c' : Claim)
      → no_drift own a (persistent_volume_claim_immutable_field_drift a spec desired.spec) ≡ true
      → record spec { requests = desired.spec.requests } ≡ spec
      → take_control own a (record (labelled_claim own a desired c) { spec = spec }) ≡ ok c'
      → (c'' : Claim) × (mutate_claim own a true desired c' ≡ ok c'')
        × Agree PersistentVolumeClaimSpec ClaimStatus c'' c'
  written-again desired spec c c' same requested e =
      let (owners, mine, eq) =
        take_control-ok own law a PersistentVolumeClaimSpec ClaimStatus
          (record (labelled_claim own a desired c) { spec = spec }) c' e in
      let (c'', again, agree) = resized-Settles desired (λ c. spec) (λ c. requested) c c' e in
      (c'', claim_written desired c' (rw (eq) same) ∙ again, agree)

  -- Reconciling a claim that was just reconciled, created or updated, changes nothing: the closure
  -- succeeds on what it wrote, so it finds no drift in it, and gives an object that agrees with it. It
  -- is assumed of SetControllerReference and IsControlledBy what is documented.
  pub mutate_claim-again :
      (exists : Bool) (desired : Built PersistentVolumeClaimSpec) (c c' : Claim)
      → mutate_claim own a exists desired c ≡ ok c'
      → (c'' : Claim) × (mutate_claim own a true desired c' ≡ ok c'')
        × Agree PersistentVolumeClaimSpec ClaimStatus c'' c'
  unfolding mutate_claim
  mutate_claim-again false desired c c' e =
      written-again desired desired.spec c c' (rw (drift_self desired.spec) refl) refl e
  mutate_claim-again true desired c c' e =
      elim (Bool-cases
        (no_drift own a (persistent_volume_claim_immutable_field_drift a c.spec desired.spec))) [
          | inl same ↦
              written-again desired (record (c.spec) { requests = desired.spec.requests }) c c'
                (requests_kept c.spec desired.spec desired.spec.requests same) refl (rw (same) at e)
          | inr drift ↦ absurd (cc (rw (drift) at e))
        ]
