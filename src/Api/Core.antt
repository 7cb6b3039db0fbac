-- ===== src/Api/Core.antt =====
-- The Kubernetes objects and fields that the operator reads: references, environment variables,
-- ConfigMaps, Secrets, selectors, object metadata.
-- A pointer is an `Option`. An enumeration that Go keeps as text is a `String`.
use k8s_operator_hermes_agen.Common.{ℕ, String, Bool, Option, List, Map, StringMap}

-- corev1.ConfigMapKeySelector and corev1.SecretKeySelector
pub record KeySelector : Type 0 where
  pub name : String
  pub key : String
  pub optional : Option Bool

-- corev1.LocalObjectReference
pub record LocalObjectReference : Type 0 where
  pub name : String

-- corev1.EnvVarSource. Field and resource references are carried along unread, as their JSON.
pub record EnvVarSource : Type 0 where
  pub config_map_key_ref : Option KeySelector
  pub secret_key_ref : Option KeySelector
  pub other_ref : String

-- corev1.EnvVar
pub record EnvVar : Type 0 where
  pub name : String
  pub value : String
  pub value_from : Option EnvVarSource

-- corev1.ConfigMapEnvSource and corev1.SecretEnvSource
pub record EnvSource : Type 0 where
  pub name : String
  pub optional : Option Bool

-- corev1.EnvFromSource
pub record EnvFromSource : Type 0 where
  pub prefix : String
  pub config_map_ref : Option EnvSource
  pub secret_ref : Option EnvSource

-- metav1.LabelSelectorRequirement
pub record SelectorRequirement : Type 0 where
  pub key : String
  pub operator : String
  pub values : List String

-- metav1.LabelSelector
pub record LabelSelector : Type 0 where
  pub match_labels : StringMap
  pub match_expressions : List SelectorRequirement

-- `[]byte`
abbrev pub Bytes : Type 0
Bytes = List ℕ

-- The contents of a corev1.ConfigMap.
pub record ConfigMapContents : Type 0 where
  pub text : StringMap
  pub binary : Map Bytes

-- The contents of a corev1.Secret.
pub record SecretContents : Type 0 where
  pub binary : Map Bytes
