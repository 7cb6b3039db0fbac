-- ===== src/Pod/Selectors.antt =====
-- The selectors of the managed objects and the labels of the pods.
use k8s_operator_hermes_agen.Common.{◌≡◌, ap, ◌∙◌, String, some, StringMap, lookup, or_else}
use k8s_operator_hermes_agen.Api.{HermesAgent}
use k8s_operator_hermes_agen.Settings.{resource_labels, managed_pod_labels}
use k8s_operator_hermes_agen.Settings.Labels.{lookup-merge_string_maps}
use k8s_operator_hermes_agen.Objects.{build_service, build_pod_disruption_budget}
use k8s_operator_hermes_agen.Policy.{build_network_policy}
use k8s_operator_hermes_agen.Pod.{PodTemplateInputs, build_stateful_set}

-- Each label that the selector asks for is on the pod, with its value.
abbrev pub Selects : StringMap → StringMap → Type 0
Selects selector labels = (k v : String) → lookup k selector ≡ some v → lookup k labels ≡ some v

managed_pod_labels-Selects : (a : HermesAgent) → Selects (resource_labels a) (managed_pod_labels a)
unfolding managed_pod_labels
managed_pod_labels-Selects a k v asked =
    lookup-merge_string_maps k a.spec.pod_labels (resource_labels a)
    ∙ ap (λ o. or_else o (lookup k a.spec.pod_labels)) asked

-- Whatever labels the user puts on the pods, the StatefulSet, the Service, the PodDisruptionBudget and
-- the NetworkPolicy select the pods of the StatefulSet's template.
pub selectors-match :
    (a : HermesAgent) (inputs : PodTemplateInputs) (backend : String)
    → let labels = (build_stateful_set a inputs).template_labels in
      Selects (build_stateful_set a inputs).selector.match_labels labels
      × Selects (build_service a).spec.selector labels
      × Selects (build_pod_disruption_budget a).spec.selector.match_labels labels
      × Selects (build_network_policy a backend).pod_selector.match_labels labels
unfolding build_stateful_set build_service build_pod_disruption_budget build_network_policy
selectors-match a inputs backend =
    let match = managed_pod_labels-Selects a in (match, match, match, match)
