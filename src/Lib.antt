-- ===== src/Lib.antt =====
-- A model of the Hermes Kubernetes operator (xmbshwll/k8s-operator-hermes-agent): the reconciler
-- of the HermesAgent resource, its admission webhook, and the program that starts both.
--
-- The parts and the files
--   Common          shared names: the native numbers, texts, lists, maps as association lists,
--                   integers, results.
--   Api             api/v1/hermesagent_types.go and the fields of the Kubernetes types that the
--                   operator reads or sets. A record per struct; a nil pointer is `none`, a nil slice
--                   or map is an empty one.
--   Settings        internal/controller/hermesagent_resources.go: accessors with their defaults,
--                   names, labels.
--   GoPath          path.IsAbs, path.Clean and path.Join of Go's package path, as documented; what
--                   the segments of a path say of the cleaned one (Split, Resolve).
--   Base64          encoding/base64.StdEncoding, as documented.
--   FileMounts, Snapshots, Config, Backend, Probes, Policy, Pod, Objects
--                   internal/controller/hermesagent_resources.go: validateFileMountSpecs, the
--                   snapshots of referenced objects, buildConfigPlan, effectiveTerminalBackend, the
--                   probes, buildNetworkPolicy, buildPodTemplateInputs and buildStatefulSet, and the
--                   builders of the Service, the PodDisruptionBudget and the claim.
--   Webhook         internal/webhook/v1/hermesagent_webhook.go: Default (Webhook.Defaults) and
--                   validateHermesAgent (Webhook.Validate, with References, Mounts and Network).
--   Controller      internal/controller/hermesagent_controller.go: the reading of referenced inputs
--                   (Inputs), the watches (Watch), the drift of claims (Drift), one function per
--                   managed object (Ensure), the status (Status, View), its patch and events
--                   (Patch, Events), and Reconcile (Reconcile).
--   Manager         cmd/main.go: the flags and the options of the servers (Options), the calls that
--                   main makes in order, up to the first that fails (Startup); and what
--                   SetupWithManager and SetupHermesAgentWebhookWithManager register, with
--                   ValidateCreate, ValidateUpdate and ValidateDelete (Registration).
--   Examples        a cluster in memory and agents, on which the theorems are applied.
--
-- How the code is modelled
--   A function keeps its name in snake case; its Go name stands in a comment where the two differ.
--   A handler is an action `Exec S A`: it takes the state of the API server and returns a result or
--   an error, and the state that it left. `S` is arbitrary, and so is what the client does to it, so
--   an action may find the server changed by others between two calls. A closure passed to
--   CreateOrUpdate is a function `mutate_...` from the object that was found to the one that is
--   written. Errors that the code tells apart are NotFound, the drift error, and the others.
--
-- What is a parameter
--   The API client and the event recorder, SetControllerReference and IsControlledBy, the condition
--   helpers and the semantic comparison of statuses (`Controller.Client.Environment`), the calls
--   of controller-runtime that main makes (`perform`), the parsed command line and os.Getenv, the
--   hash of the config payload, the YAML parser, resource.ParseQuantity, netip.ParsePrefix and the
--   label selector validation. Laws that are assumed of them (`IsOwnership`, `IsConditionApi`) are the
--   documented ones, and `Examples.Cluster` has instances.
--
-- Bounds
--   Go's int32 and int64 fields are integers: the code compares them, and adds none of them. The
--   loops of the code are structural on lists or texts. Only the printing of a number in decimal
--   (Common.Show) runs on fuel, one more than the number, with which the digits do not depend on it.
--
-- What is not modelled
--   Generated deep copies, the registration of the API groups, api/v1alpha1 (the same fields, which no
--   code handles), what controller-runtime does with the builders it is given, logging, and the
--   rejected values in field errors.
pub mod Common
pub mod Api
pub mod Settings
pub mod GoPath
pub mod Base64
pub mod FileMounts
pub mod Snapshots
pub mod Config
pub mod Backend
pub mod Probes
pub mod Policy
pub mod Pod
pub mod Objects
pub mod Webhook
pub mod Controller
pub mod Examples
pub mod Manager
