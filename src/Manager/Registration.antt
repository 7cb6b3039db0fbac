-- ===== src/Manager/Registration.antt =====
-- SetupWithManager of internal/controller/hermesagent_controller.go and
-- SetupHermesAgentWebhookWithManager of internal/webhook/v1/hermesagent_webhook.go: what the
-- builders of controller-runtime are told before Complete.
use k8s_operator_hermes_agen.Common.{ℤ, String, Bool, true, Option, List, [], ◌∷◌, Result}
use k8s_operator_hermes_agen.Api.{HermesAgent, LabelSelector}
use k8s_operator_hermes_agen.Controller.Exec.{Exec}
use k8s_operator_hermes_agen.Controller.Client.{Key, Environment}
use k8s_operator_hermes_agen.Controller.Watch.{find_agents_for_config_map, find_agents_for_secret}
use k8s_operator_hermes_agen.Controller.Reconcile.{reconcile}
use k8s_operator_hermes_agen.Webhook.Fields.{FieldPath, ErrorList}
use k8s_operator_hermes_agen.Webhook.Defaults.{default}
use k8s_operator_hermes_agen.Webhook.Validate.{validate_hermes_agent}

-- The kinds of object that the operator watches.
pub data Kind : Type 0 where
  hermes_agent config_map persistent_volume_claim service network_policy pod_disruption_budget
        stateful_set secret :
      Kind

-- The builder of a controller: `generation_changed` is the predicate on the objects that it is for.
pub record ControllerSetup (S : Type 0) : Type 0 where
  pub for_kind : Kind
  pub generation_changed : Bool
  pub owns : List Kind
  pub watches : List (Kind × (Key → S → List Key))
  pub name : String
  pub reconciler : Key → Exec S (Unit {0})

unfoldable pub setup_with_manager : {S : Type 0} → Environment S → ControllerSetup S
setup_with_manager r = record {
  for_kind = hermes_agent;
  generation_changed = true;
  owns =
      config_map ∷ persistent_volume_claim ∷ service ∷ network_policy ∷ pod_disruption_budget
      ∷ stateful_set ∷ [];
  watches =
      (config_map, find_agents_for_config_map r.client)
      ∷ (secret, find_agents_for_secret r.client)
      ∷ [];
  name = "hermesagent";
  reconciler = reconcile r;
}

abbrev pub Warnings : Type 0
Warnings = List String

-- webhook.CustomValidator and webhook.CustomDefaulter
pub record WebhookSetup : Type 0 where
  pub validate_create : HermesAgent → Warnings × ErrorList
  pub validate_update : HermesAgent → HermesAgent → Warnings × ErrorList
  pub validate_delete : HermesAgent → Warnings × ErrorList
  pub defaulter : HermesAgent → HermesAgent

-- The foreign code that the validation calls.
pub record WebhookLibraries : Type 0 where
  pub parse_quantity : String → Result String ℤ
  pub parse_prefix : String → Option String
  pub validate_label_selector : LabelSelector → FieldPath → ErrorList

module _ (parse_quantity : String → Result String ℤ) (parse_prefix : String → Option String)
    (validate_label_selector : LabelSelector → FieldPath → ErrorList) where
  unfoldable pub validate_create : HermesAgent → Warnings × ErrorList
  validate_create obj =
      ([], validate_hermes_agent parse_quantity parse_prefix validate_label_selector obj)

  unfoldable pub validate_update : HermesAgent → HermesAgent → Warnings × ErrorList
  validate_update old new_obj =
      ([], validate_hermes_agent parse_quantity parse_prefix validate_label_selector new_obj)

  unfoldable pub validate_delete : HermesAgent → Warnings × ErrorList
  validate_delete obj = ([], [])

  unfoldable pub setup_hermes_agent_webhook_with_manager : WebhookSetup
  setup_hermes_agent_webhook_with_manager = record {
    validate_create = validate_create;
    validate_update = validate_update;
    validate_delete = validate_delete;
    defaulter = default;
  }

-- The registration with these libraries.
abbrev pub registered : WebhookLibraries → WebhookSetup
registered l =
    setup_hermes_agent_webhook_with_manager l.parse_quantity l.parse_prefix
      l.validate_label_selector
