-- ===== src/Examples/Equality.antt =====
-- Equality of statuses, field by field.
use k8s_operator_hermes_agen.Common.{
  ◌==◌, eq_refl, ℤ, eqb_ℤ, eqb_ℤ_iff, Bool, true, false, ◌&&◌, Option, none, some, List, [], ◌∷◌,
  ◌≡◌, refl,
}
use k8s_operator_hermes_agen.Api.{
  AgentStatus, Condition, ConditionStatus, condition_true, condition_false, condition_unknown,
}

abbrev same_bool : Bool → Bool → Bool
same_bool true true = true
same_bool false false = true
same_bool _ _ = false

abbrev same_option : {A : Type 0} → (A → A → Bool) → Option A → Option A → Bool
same_option same none none = true
same_option same (some x) (some y) = same x y
same_option same _ _ = false

abbrev same_list : {A : Type 0} → (A → A → Bool) → List A → List A → Bool
same_list same [] [] = true
same_list same (x ∷ xs) (y ∷ ys) = same x y && same_list same xs ys
same_list same _ _ = false

abbrev pub same_status : ConditionStatus → ConditionStatus → Bool
same_status condition_true condition_true = true
same_status condition_false condition_false = true
same_status condition_unknown condition_unknown = true
same_status _ _ = false

abbrev same_condition : Condition → Condition → Bool
same_condition c d =
    c.type == d.type
    && same_status c.status d.status
    && eqb_ℤ c.observed_generation d.observed_generation
    && c.reason == d.reason
    && c.message == d.message
    && c.last_transition_time == d.last_transition_time

abbrev pub same_agent_status : AgentStatus → AgentStatus → Bool
same_agent_status s t =
    s.phase == t.phase
    && eqb_ℤ s.observed_generation t.observed_generation
    && s.image == t.image
    && s.config_hash == t.config_hash
    && eqb_ℤ s.ready_replicas t.ready_replicas
    && same_bool s.persistence_bound t.persistence_bound
    && s.persistent_volume_claim_name == t.persistent_volume_claim_name
    && same_list (λ x y. x == y) s.persistent_volume_claim_drifted_fields
        t.persistent_volume_claim_drifted_fields
    && s.persistent_volume_claim_remediation == t.persistent_volume_claim_remediation
    && s.service_name == t.service_name
    && same_option (λ x y. x == y) s.last_reconcile_time t.last_reconcile_time
    && same_list same_condition s.conditions t.conditions

eqb_ℤ_self : (n : ℤ) → eqb_ℤ n n ≡ true
eqb_ℤ_self n = (eqb_ℤ_iff n n).1 refl

same_bool_self : (b : Bool) → same_bool b b ≡ true
same_bool_self true = refl
same_bool_self false = refl

same_option_self :
    {A : Type 0}
    → (same : A → A → Bool) → ((x : A) → same x x ≡ true)
    → (o : Option A) → same_option same o o ≡ true
same_option_self same h none = refl
same_option_self same h (some x) = h x

same_list_self :
    {A : Type 0}
    → (same : A → A → Bool) → ((x : A) → same x x ≡ true)
    → (xs : List A) → same_list same xs xs ≡ true
same_list_self same h [] = refl
same_list_self same h (x ∷ xs) = rw (h x) (same_list_self same h xs)

pub same_status_self : (x : ConditionStatus) → same_status x x ≡ true
same_status_self condition_true = refl
same_status_self condition_false = refl
same_status_self condition_unknown = refl

same_condition_self : (c : Condition) → same_condition c c ≡ true
same_condition_self c =
    rw
      (
        eq_refl c.type,
        same_status_self c.status,
        eqb_ℤ_self c.observed_generation,
        eq_refl c.reason,
        eq_refl c.message,
        eq_refl c.last_transition_time,
      )
      refl

pub same_agent_status_self : (s : AgentStatus) → same_agent_status s s ≡ true
same_agent_status_self s =
    rw
      (
        eq_refl s.phase,
        eqb_ℤ_self s.observed_generation,
        eq_refl s.image,
        eq_refl s.config_hash,
        eqb_ℤ_self s.ready_replicas,
        same_bool_self s.persistence_bound,
        eq_refl s.persistent_volume_claim_name,
        same_list_self (λ x y. x == y) eq_refl s.persistent_volume_claim_drifted_fields,
        eq_refl s.persistent_volume_claim_remediation,
        eq_refl s.service_name,
        same_option_self (λ x y. x == y) eq_refl s.last_reconcile_time,
        same_list_self same_condition same_condition_self s.conditions,
      )
      refl
