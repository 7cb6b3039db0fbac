-- ===== src/Controller/Ensure/Converge.antt =====
-- Writing a Service that was just written, and the node port of its port.
use k8s_operator_hermes_agen.Common.{
  ◌≡◌, refl, sym, Option, none, some, or_else, if◌then◌else◌, eqb_ℤ_iff, String, Bool, true, false,
  List, [], ◌∷◌, StringMap, lookup, Result, ok, err, Result-cases, Bool-cases, eqb_ℤ, pos, inl, inr,
}
use k8s_operator_hermes_agen.Api.{HermesAgent, ServicePort, ServiceSpec}
use k8s_operator_hermes_agen.Settings.{
  merge_string_maps, service_type, service_port, service_target_port,
}
use k8s_operator_hermes_agen.Settings.Labels.{lookup-merge_string_maps}
use k8s_operator_hermes_agen.Controller.Exec.{Error}
use k8s_operator_hermes_agen.Objects.{build_service}
use k8s_operator_hermes_agen.Controller.Client.{
  OwnerReference, Object, Ownership, IsOwnership, Service,
}
use k8s_operator_hermes_agen.Controller.Ensure.{
  take_control, mutate_service, updated_service, keep_node_port, has_node_port,
}

-- Two versions of an object agree: in the metadata but for the order of labels and annotations, and
-- in the owners and the spec.
pub record Agree (Spec Status : Type 0) (o o' : Object Spec Status) : Type 0 where
  pub same_name : o.name ≡ o'.name
  pub same_namespace : o.namespace ≡ o'.namespace
  pub same_labels : (k : String) → lookup k o.labels ≡ lookup k o'.labels
  pub same_annotations : (k : String) → lookup k o.annotations ≡ lookup k o'.annotations
  pub same_owners : o.owners ≡ o'.owners
  pub same_spec : o.spec ≡ o'.spec

or_else-again : (x y : Option String) → or_else x (or_else x y) ≡ or_else x y
or_else-again none y = refl
or_else-again (some v) y = refl

ok-injective : (A : Type 0) (r : Result Error A) (x y : A) → r ≡ ok x → r ≡ ok y → y ≡ x
ok-injective A r x y e f = cc

pub merge-again :
    (k : String) (base extra : StringMap)
    → lookup k (merge_string_maps (merge_string_maps base extra) extra)
      ≡ lookup k (merge_string_maps base extra)
merge-again k base extra =
    rw
      (
        lookup-merge_string_maps k (merge_string_maps base extra) extra,
        lookup-merge_string_maps k base extra,
      )
      (or_else-again (lookup k extra) (lookup k base))

keep_node_port-same :
    (own : Ownership) (a : HermesAgent) (new : List ServicePort)
    → keep_node_port own a new new ≡ new
keep_node_port-same own a [] = refl
keep_node_port-same own a (y ∷ z ∷ zs) = refl
keep_node_port-same own a (y ∷ []) = elim (Bool-cases (eqb_ℤ y.node_port (pos 0))) [
  | inl unset ↦ rw (unset)
  | inr given ↦ rw (given)
]

keep_node_port-again :
    (own : Ownership) (a : HermesAgent) (old new : List ServicePort)
    → keep_node_port own a (keep_node_port own a old new) new ≡ keep_node_port own a old new
keep_node_port-again own a [] new = keep_node_port-same own a new
keep_node_port-again own a (x ∷ y ∷ ys) new = keep_node_port-same own a new
keep_node_port-again own a (x ∷ []) [] = refl
keep_node_port-again own a (x ∷ []) (y ∷ z ∷ zs) = refl
keep_node_port-again own a (x ∷ []) (y ∷ []) = elim (Bool-cases (eqb_ℤ x.node_port (pos 0))) [
  | inl unset ↦ rw (unset) (keep_node_port-same own a (y ∷ []))
  | inr given ↦ rw (given, given)
]

ports-again :
    (own : Ownership) (a : HermesAgent) (kind : Bool) (old new : List ServicePort)
    → (if kind
        then keep_node_port own a (if kind then keep_node_port own a old new else new) new
        else new)
      ≡ (if kind then keep_node_port own a old new else new)
ports-again own a true old new = keep_node_port-again own a old new
ports-again own a false old new = refl

module _ (own : Ownership) (law : IsOwnership own) (a : HermesAgent) where
  pub take_control-ok :
      (Spec Status : Type 0) (o o' : Object Spec Status)
      → take_control own a o ≡ ok o'
      → (owners : List OwnerReference) × (own.is_controlled_by owners a ≡ true)
        × (o' ≡ record o { owners = owners })
  unfolding take_control
  take_control-ok Spec Status o o' e =
      elim (Result-cases (own.set_controller_reference a o.owners)) [
        | inl (owners, set) ↦ (
          owners,
          law.set_controls a o.owners owners set,
          ok-injective (Object Spec Status) (take_control own a o) _ o' (rw (set, take_control)) e,
        )
        | inr (f, failed) ↦
            let fails : take_control own a o ≡ err f = rw (failed, take_control) in absurd (cc)
      ]

  pub take_control-again :
      (Spec Status : Type 0) (o : Object Spec Status)
      → own.is_controlled_by o.owners a ≡ true
      → take_control own a o ≡ ok o
  unfolding take_control
  take_control-again Spec Status o mine = rw (law.set_again a o.owners mine, take_control)

  -- Reconciling a Service that was just reconciled changes nothing: the closure that wrote it succeeds
  -- on what it wrote, and gives an object that agrees with it.
  pub mutate_service-again :
      (s s' : Service)
      → mutate_service own a s ≡ ok s'
      → (s'' : Service) × (mutate_service own a s' ≡ ok s'') × Agree ServiceSpec (Unit {0}) s'' s'
  unfolding mutate_service build_service
  mutate_service-again s s' e =
      let (owners, mine, eq) =
        take_control-ok ServiceSpec (Unit {0}) (updated_service own a s) s' e in
      (
        updated_service own a s',
        rw (eq) (take_control-again ServiceSpec (Unit {0}) _ mine),
        rw (eq) (record {
          same_name = refl;
          same_namespace = refl;
          same_labels = λ k. merge-again k s.labels _;
          same_annotations = λ k. refl;
          same_owners = refl;
          same_spec = rw (
              ports-again own a (has_node_port own a (service_type a)) s.spec.ports
                (build_service a).spec.ports);
        }),
      )

  -- A reconciliation of a Service of a type with node ports that has one port keeps its node port.
  pub mutate_service-node_port :
      (s s' : Service) (old : ServicePort)
      → mutate_service own a s ≡ ok s'
      → has_node_port own a (service_type a) ≡ true
      → s.spec.ports ≡ old ∷ []
      → (new : ServicePort) × (s'.spec.ports ≡ new ∷ [])
        × (new.node_port ≡ old.node_port)
        × (new.port ≡ service_port a)
        × (new.target_port ≡ service_target_port a)
  unfolding mutate_service build_service
  mutate_service-node_port s s' old e kind one =
      let (owners, mine, eq) =
        take_control-ok ServiceSpec (Unit {0}) (updated_service own a s) s' e in
      let unassigned : ServicePort = record {
        port = service_port a;
        target_port = service_target_port a;
        protocol = "TCP";
        node_port = pos 0;
      } in
      let assigned : ServicePort = record unassigned { node_port = old.node_port } in
      elim (Bool-cases (eqb_ℤ old.node_port (pos 0))) [
        | inl unset ↦ (
          unassigned,
          rw (eq, kind, one, unset),
          sym ((eqb_ℤ_iff old.node_port (pos 0)).0 unset),
          refl,
          refl,
        )
        | inr given ↦ (assigned, rw (eq, kind, one, given), refl, refl, refl)
      ]
