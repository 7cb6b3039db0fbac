-- ===== src/Examples/Frames.antt =====
-- A reconciliation beside the Service of another.
use k8s_operator_hermes_agen.Common.{
  ◌≡◌, ◌∙◌, refl, eq_iff, Option, none, some, [], ◌∷◌, Map, lookup, insert, lookup-insert, arith,
}
use k8s_operator_hermes_agen.Controller.Exec.Keeps.{Keeps}
use k8s_operator_hermes_agen.Controller.Client.{Service}
use k8s_operator_hermes_agen.Controller.Patch.Keeps.{StatusKeeps}
use k8s_operator_hermes_agen.Controller.Ensure.Frame.{OwnCallsKeep}
use k8s_operator_hermes_agen.Controller.Reconcile.{reconcile_agent}
use k8s_operator_hermes_agen.Controller.Reconcile.Frame.{reconcile_agent-Keeps}
use k8s_operator_hermes_agen.Examples.Agents.{plain}
use k8s_operator_hermes_agen.Examples.Cluster.{
  Cluster, found_or_missing, updated-Keeps, remove, env, ownership-IsOwnership,
}

-- There is no Service of that name.
abbrev NoOther : Cluster → Type 0
NoOther s = lookup "other" s.services ≡ none

found-NoOther : {Obj : Type 0} → (o : Option Obj) → Keeps NoOther (found_or_missing o)
found-NoOther none s p = p
found-NoOther (some o) s p = p

inserted-NoOther :
    (m : Map Service) (o : Service)
    → lookup "other" m ≡ none
    → lookup "other" (insert "demo" o m) ≡ none
inserted-NoOther m o h = lookup-insert m "demo" "other" o ∙ h

removed-NoOther :
    (m : Map Service) → lookup "other" m ≡ none → lookup "other" (remove "demo" m) ≡ none
unfolding lookup
removed-NoOther [] h = refl
removed-NoOther ((k, o) ∷ m) h =
    ground (arith, removed-NoOther m, eq_iff k "demo", eq_iff k "other")

status-NoOther : StatusKeeps env NoOther
status-NoOther = record {
  get_agent = λ key s. found-NoOther (lookup key.name s.agents) s;
  patch = λ o after s p. p;
  events = λ record_event a e s set p. absurd (cc);
}

calls-NoOther : OwnCallsKeep env NoOther plain
calls-NoOther = record {
  config_map_reads = λ key s. found-NoOther (lookup key.name s.config_maps) s;
  secret_reads = λ key s p. p;
  claim_reads = λ key s. found-NoOther (lookup key.name s.claims) s;
  stateful_set_reads = λ key s. found-NoOther (lookup key.name s.stateful_sets) s;
  service_reads = λ key s. found-NoOther (lookup key.name s.services) s;
  network_policy_reads = λ key s. found-NoOther (lookup key.name s.network_policies) s;
  disruption_budget_reads = λ key s. found-NoOther (lookup key.name s.disruption_budgets) s;
  config_map_writes =
      λ id mutate takes s p. updated-Keeps NoOther (lookup _ s.config_maps) mutate _ s p (λ o. p);
  claim_writes =
      λ mutate takes s p. updated-Keeps NoOther (lookup _ s.claims) mutate _ s p (λ o. p);
  stateful_set_writes =
      λ mutate takes s p. updated-Keeps NoOther (lookup _ s.stateful_sets) mutate _ s p (λ o. p);
  service_writes = λ mutate takes s p.
      updated-Keeps NoOther (lookup _ s.services) mutate _ s p
        (λ o. inserted-NoOther s.services o p);
  network_policy_writes =
      λ mutate takes s p. updated-Keeps NoOther (lookup _ s.network_policies) mutate _ s p (λ o. p);
  disruption_budget_writes = λ mutate takes s p.
      updated-Keeps NoOther (lookup _ s.disruption_budgets) mutate _ s p (λ o. p);
  config_map_deletes = λ id o s s' got mine p. p;
  service_deletes = λ o s s' got mine p. removed-NoOther s'.services p;
  network_policy_deletes = λ o s s' got mine p. p;
  disruption_budget_deletes = λ o s s' got mine p. p;
}

reconcile_agent-Keeps_example : Keeps NoOther (reconcile_agent env plain)
reconcile_agent-Keeps_example =
    reconcile_agent-Keeps env ownership-IsOwnership NoOther status-NoOther plain calls-NoOther
