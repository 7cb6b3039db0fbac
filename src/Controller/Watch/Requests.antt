-- ===== src/Controller/Watch/Requests.antt =====
-- The watches against the reading of the inputs: no change that matters to an agent goes unnoticed.
use mathlib.Core.Logic.Or
use mathlib.Core.List.{Mem, Mem-prop, mem-cons, mem-cons_self, mem-cons_of_mem, not-mem-nil}
use k8s_operator_hermes_agen.Common.{
  ◌≡◌, ◌≢◌, ◌==◌, ◌⊎◌, Bool, true, false, List, [], ◌∷◌, ok, Bool-cases, inl, inr,
}
use k8s_operator_hermes_agen.Api.{HermesAgent}
use k8s_operator_hermes_agen.Controller.Client.{Key, Client, Store, ConfigMap, Secret, agent_key}
use k8s_operator_hermes_agen.Controller.Inputs.{resolve_referenced_inputs}
use k8s_operator_hermes_agen.Controller.Watch.{
  references_config_map, references_secret, matching_requests, find_referencing_agents,
  find_agents_for_config_map, find_agents_for_secret,
}
use k8s_operator_hermes_agen.Controller.Watch.Reads.{resolve_referenced_inputs-same}

later_request :
    (matches : HermesAgent → Bool) (b : HermesAgent) (agents : List HermesAgent) (k : Key)
    → Mem k (matching_requests matches agents)
    → Mem k (matching_requests matches (b ∷ agents))
unfolding matching_requests
later_request matches b agents k x = elim (Bool-cases (matches b)) [
  | inl here ↦ rw (here) (mem-cons_of_mem (agent_key b) x)
  | inr skipped ↦ rw (skipped) x
]

own_request :
    (matches : HermesAgent → Bool) (a b : HermesAgent) (agents : List HermesAgent)
    → matches a ≡ true
    → a ≡ b
    → Mem (agent_key a) (matching_requests matches (b ∷ agents))
unfolding matching_requests mem-cons_self
own_request matches a b agents h e =
    let here : matches b ≡ true = rw (e) at h in rw (here, e) mem-cons_self

-- A listed agent that matches is requested.
requested :
    (matches : HermesAgent → Bool) (a : HermesAgent) (agents : List HermesAgent)
    → matches a ≡ true
    → Mem a agents
    → Mem (agent_key a) (matching_requests matches agents)
requested matches a [] h x = absurd (not-mem-nil x)
requested matches a (b ∷ agents) h x =
    Or.elim Mem-prop (mem-cons.0 x) (own_request matches a b agents h)
      (λ rest. later_request matches b agents (agent_key a) (requested matches a agents h rest))

-- Let the stores before and after a change agree on all but one ConfigMap and one Secret. If an agent
-- then reads other inputs, the handler of the ConfigMap or that of the Secret requests the agent,
-- provided that it is among those listed.
pub changed_inputs-requested :
    {S : Type 0} (client : Client S) (m m' : Store ConfigMap S) (t t' : Store Secret S)
    (cm sec : Key) (a : HermesAgent) (agents agents' : List HermesAgent) (s : S)
    → ((key : Key) → key ≢ cm → (s : S) → m.get key s ≡ m'.get key s)
    → ((key : Key) → key ≢ sec → (s : S) → t.get key s ≡ t'.get key s)
    → (cm.name == "") ≡ false
    → (sec.name == "") ≡ false
    → (client.list_agents cm.namespace s).0 ≡ ok agents
    → (client.list_agents sec.namespace s).0 ≡ ok agents'
    → Mem a agents
    → Mem a agents'
    → resolve_referenced_inputs m t a ≢ resolve_referenced_inputs m' t' a
    → Mem (agent_key a) (find_agents_for_config_map client cm s)
      ⊎ Mem (agent_key a) (find_agents_for_secret client sec s)
unfolding find_agents_for_config_map find_agents_for_secret find_referencing_agents
changed_inputs-requested client m m' t t' cm sec a agents agents' s same same' named named' l l' x
      x' changed =
    elim (Bool-cases (references_config_map a cm.name)) [
      | inl refers ↦
          inl (rw (l) (requested (λ b. references_config_map b cm.name) a agents refers x))
      | inr others ↦ elim (Bool-cases (references_secret a sec.name)) [
        | inl refers ↦
            inr (rw (l') (requested (λ b. references_secret b sec.name) a agents' refers x'))
        | inr others' ↦ absurd (
            changed (
              resolve_referenced_inputs-same m m' t t' cm sec same same' a named named' others
                others'))
      ]
    ]
