-- ===== src/Controller/View/Ready.antt =====
-- When the view says that the agent is ready.
use k8s_operator_hermes_agen.Common.{
  String, ◌≡◌, ◌↔◌, ◌≤ℤ◌, ◌==◌, true, false, ok, inl, inr, arith, ap, sym, ◌∙◌, Result-cases, ◌≢◌,
  Bool-cases, eq_iff,
}
use k8s_operator_hermes_agen.Api.{HermesAgent}
use k8s_operator_hermes_agen.Settings.{persistence_enabled}
use k8s_operator_hermes_agen.Controller.Client.{agent_key, Store, Claim, StatefulSet}
use k8s_operator_hermes_agen.Controller.View.{
  claim_key, StatusView, PersistenceView, replicas_or_one, stateful_set_ready, stateful_set_view,
  stateful_set_missing_view, claim_missing_view, claim_unbound_view, claim_bound,
  persistence_disabled, read_workload_view, read_status_view,
}

-- Enough replicas are ready, and the controller of the set has seen its latest spec.
abbrev pub IsRolledOut : StatefulSet → Type 0
IsRolledOut s =
    (replicas_or_one s.spec.replicas ≤ℤ s.status.ready_replicas)
    × (s.generation ≤ℤ s.status.observed_generation)

stateful_set_ready_iff : (s : StatefulSet) → (stateful_set_ready s ≡ true) ↔ IsRolledOut s
unfolding stateful_set_ready
stateful_set_ready_iff s = ground arith

stateful_set_view-ready_iff :
    (p : PersistenceView) (s : StatefulSet)
    → ((stateful_set_view p s).phase ≡ "Ready") ↔ IsRolledOut s
unfolding stateful_set_view
stateful_set_view-ready_iff p s =
    ground (arith, stateful_set_ready_iff s, eq_iff "WorkloadPending" "Ready")

-- The readiness verdict, the workload verdict and the phase go together.
stateful_set_view-workload :
    (p : PersistenceView) (s : StatefulSet)
    → ((stateful_set_view p s).readiness.status ≡ (stateful_set_view p s).workload.status)
      × ((stateful_set_view p s).persistence ≡ p.verdict)
      × ((stateful_set_view p s).persistence_bound ≡ p.bound)
      × ((stateful_set_view p s).ready_replicas ≡ s.status.ready_replicas)
unfolding stateful_set_view
stateful_set_view-workload p s = ground arith

stateful_set_missing_view_not_ready :
    (p : PersistenceView) (name : String) → (stateful_set_missing_view p name).phase ≢ "Ready"
unfolding stateful_set_missing_view
stateful_set_missing_view_not_ready p name = ground (arith, eq_iff "WorkloadPending" "Ready")

claim_missing_view_not_ready : (name : String) → (claim_missing_view name).phase ≢ "Ready"
unfolding claim_missing_view
claim_missing_view_not_ready name = ground (arith, eq_iff "StoragePending" "Ready")

claim_unbound_view_not_ready : (c : Claim) → (claim_unbound_view c).phase ≢ "Ready"
unfolding claim_unbound_view
claim_unbound_view_not_ready c =
    ground (arith, eq_iff "StoragePending" "Ready", eq_iff "StorageError" "Ready")

module _ {S : Type 0} (sets : Store StatefulSet S) (a : HermesAgent) where
  -- The StatefulSet that was read from the state `t`, and what makes the view of it ready.
  abbrev pub SeenRolledOut : PersistenceView → StatusView → S → Type 0
  SeenRolledOut p v t =
      (x : StatefulSet) × ((sets.get (agent_key a) t).0 ≡ ok x)
      × IsRolledOut x
      × (v ≡ stateful_set_view p x)

  read_workload_view-ready :
      (p : PersistenceView) (t : S) (v : StatusView)
      → (read_workload_view sets a p t).0 ≡ ok v
      → v.phase ≡ "Ready"
      → SeenRolledOut p v t
  unfolding read_workload_view
  read_workload_view-ready p t v h r = elim (Result-cases (sets.get (agent_key a) t).0) [
    | inl (x, e) ↦
        let same : stateful_set_view p x ≡ v = ground arith in
        (
          x,
          e,
          (stateful_set_view-ready_iff p x).0 (ap (λ (w : StatusView). w.phase) same ∙ r),
          sym same,
        )
    | inr (e, failed) ↦ absurd (ground (arith, stateful_set_missing_view_not_ready p a.name))
  ]

  -- The claim that was read from `s` is bound, or the agent has none.
  pub data SeenPersistent (claims : Store Claim S) (s : S) : PersistenceView → S → Type 0 where
    ephemeral : persistence_enabled a ≡ false → SeenPersistent claims s persistence_disabled s
    bound :
        (c : Claim)
        → persistence_enabled a ≡ true
        → (claims.get (claim_key a) s).0 ≡ ok c
        → c.status.phase ≡ "Bound"
        → SeenPersistent claims s (claim_bound c) (claims.get (claim_key a) s).1

  -- A view that says "Ready" was made from a bound claim, or an agent without persistence, and from
  -- a StatefulSet that is rolled out, read after it.
  pub read_status_view-ready :
      (claims : Store Claim S) (s : S) (v : StatusView)
      → (read_status_view claims sets a s).0 ≡ ok v
      → v.phase ≡ "Ready"
      → (p : PersistenceView) × (t : S) × SeenPersistent claims s p t × SeenRolledOut p v t
  unfolding read_status_view
  read_status_view-ready claims s v h r = elim (Bool-cases (persistence_enabled a)) [
    | inr off ↦ (
      persistence_disabled,
      s,
      ephemeral off,
      read_workload_view-ready persistence_disabled s v (ground arith) r,
    )
    | inl on ↦ elim (Result-cases (claims.get (claim_key a) s).0) [
      | inr (e, failed) ↦ absurd (ground (arith, claim_missing_view_not_ready (claim_key a).name))
      | inl (c, got) ↦ elim (Bool-cases (c.status.phase == "Bound")) [
        | inr other ↦ absurd (ground (arith, claim_unbound_view_not_ready c))
        | inl is ↦
            let t = (claims.get (claim_key a) s).1 in
            (
              claim_bound c,
              t,
              bound c on got ((eq_iff _ _).0 is),
              read_workload_view-ready (claim_bound c) t v (ground arith) r,
            )
      ]
    ]
  ]
