-- ===== src/Examples/Cluster.antt =====
-- A cluster in memory. Its stores read, update and delete what is there; they make no new objects.
use k8s_operator_hermes_agen.Common.{
  ◌≡◌, refl, String, ◌==◌, eq_refl, eq_iff, Bool, true, Option, none, some, List, [], ◌∷◌, Map,
  lookup, insert, Result, Result-cases, ok, err, if◌then◌else◌, Bool-cases, inl, inr, any, arith,
  ◌≢◌, ap, sym,
}
use k8s_operator_hermes_agen.Api.{HermesAgent, Condition}
use k8s_operator_hermes_agen.Controller.Exec.{Error, not_found}
use k8s_operator_hermes_agen.Controller.Client.{
  Store, ConfigMap, Claim, StatefulSet, Service, NetworkPolicy, DisruptionBudget, AgentObject,
  OwnerReference, Ownership, IsOwnership, ConditionApi, IsConditionApi, Client, Environment,
}
use k8s_operator_hermes_agen.Examples.Equality.{same_status, same_status_self, same_agent_status}

pub record Cluster : Type 0 where
  pub claims : Map Claim
  pub stateful_sets : Map StatefulSet
  pub services : Map Service
  pub network_policies : Map NetworkPolicy
  pub disruption_budgets : Map DisruptionBudget
  pub config_maps : Map ConfigMap
  pub agents : Map AgentObject

abbrev pub nothing : Cluster
nothing = record {
  claims = [];
  stateful_sets = [];
  services = [];
  network_policies = [];
  disruption_budgets = [];
  config_maps = [];
  agents = [];
}

-- `none` is a name that is not there.
abbrev pub found_or_missing : {Obj : Type 0} → Option Obj → Cluster → Result Error Obj × Cluster
found_or_missing none s = (err (not_found "missing"), s)
found_or_missing (some o) s = (ok o, s)

abbrev pub remove : {Obj : Type 0} → String → Map Obj → Map Obj
remove name [] = []
remove name ((k, o) ∷ m) = if k == name then m else (k, o) ∷ remove name m

-- What an update leaves of an object that is there; one that is missing is not made.
abbrev pub updated :
    {Obj : Type 0}
    → Option Obj
    → (Obj → Result Error Obj)
    → (Obj → Cluster)
    → Cluster
    → Result Error (Unit {0}) × Cluster
updated none mutate write s = (ok tt, s)
updated (some o) mutate write s = elim (mutate o) [ ok o' ↦ (ok tt, write o') | err e ↦ (err e, s) ]

pub updated-Keeps :
    {Obj : Type 0}
    → (P : Cluster → Type 0) → (found : Option Obj) → (mutate : Obj → Result Error Obj)
    → (write : Obj → Cluster) → (s : Cluster) → P s
    → ((o : Obj) → P (write o))
    → P (updated found mutate write s).1
updated-Keeps P none mutate write s p h = p
updated-Keeps P (some o) mutate write s p h = elim (Result-cases (mutate o)) [
  | inl (o', made) ↦ rw (made, updated) (h o')
  | inr (e, failed) ↦ rw (failed, updated) p
]

abbrev pub store :
    {Obj : Type 0} → (Cluster → Map Obj) → (Map Obj → Cluster → Cluster) → Store Obj Cluster
store read write = record {
  get = λ key s. found_or_missing (lookup key.name (read s)) s;
  create_or_update = λ key mutate s.
      updated (lookup key.name (read s)) mutate (λ o. write (insert key.name o (read s)) s) s;
  delete = λ key s. (ok tt, write (remove key.name (read s)) s);
}

-- The owner is the agent with the UID of the reference.
abbrev owned_by : List OwnerReference → String → Bool
owned_by owners uid = any (λ (o : OwnerReference). o.uid == uid) owners

abbrev reference : HermesAgent → OwnerReference
reference a = record { kind = "HermesAgent"; name = a.name; uid = a.uid; controller = true }

abbrev pub ownership : Ownership
ownership = record {
  set_controller_reference =
      λ a owners. if owned_by owners a.uid then ok owners else ok (reference a ∷ owners);
  is_controlled_by = λ owners a. owned_by owners a.uid;
}

abbrev pub find_condition : List Condition → String → Option Condition
find_condition [] type = none
find_condition (c ∷ cs) type = if c.type == type then some c else find_condition cs type

-- The condition that was there, with what the new one says of it.
abbrev revised : Condition → Condition → Condition
revised old new = record {
  type = old.type;
  status = new.status;
  observed_generation = new.observed_generation;
  reason = new.reason;
  message = new.message;
  last_transition_time =
      if same_status old.status new.status
      then old.last_transition_time
      else new.last_transition_time;
}

abbrev pub set_condition_of : List Condition → Condition → List Condition
set_condition_of [] c = c ∷ []
set_condition_of (d ∷ cs) c =
    let rest = set_condition_of cs c in if d.type == c.type then revised d c ∷ cs else d ∷ rest

abbrev pub conditions : ConditionApi
conditions = record { find = find_condition; set = set_condition_of }

find-set_self :
    (cs : List Condition) (c : Condition)
    → (c' : Condition) × (find_condition (set_condition_of cs c) c.type ≡ some c')
      × (c'.status ≡ c.status)
      × (c'.reason ≡ c.reason)
      × (c'.message ≡ c.message)
      × (c'.observed_generation ≡ c.observed_generation)
find-set_self [] c = (c, rw (eq_refl c.type) refl, refl, refl, refl, refl)
find-set_self (d ∷ cs) c = elim (Bool-cases (d.type == c.type)) [
  | inl same ↦ (revised d c, rw (same, same) refl, refl, refl, refl, refl)
  | inr other ↦ rw (other, other) (find-set_self cs c)
]

find-set_ne :
    (cs : List Condition) (c : Condition) (type : String)
    → c.type ≢ type
    → find_condition (set_condition_of cs c) type ≡ find_condition cs type
find-set_ne [] c type ne = ground (arith, eq_iff c.type type)
find-set_ne (d ∷ cs) c type ne =
    ground
      (arith, find-set_ne cs c type, eq_iff c.type type, eq_iff d.type type, eq_iff d.type c.type)

revised_same :
    (d c : Condition)
    → d.status ≡ c.status
    → d.reason ≡ c.reason
    → d.message ≡ c.message
    → d.observed_generation ≡ c.observed_generation
    → revised d c ≡ d
revised_same d c st re me ge = rw (sym st, sym re, sym me, sym ge, same_status_self d.status) refl

set_same :
    (cs : List Condition) (c c' : Condition)
    → find_condition cs c.type ≡ some c'
    → c'.status ≡ c.status
    → c'.reason ≡ c.reason
    → c'.message ≡ c.message
    → c'.observed_generation ≡ c.observed_generation
    → set_condition_of cs c ≡ cs
set_same [] c c' found st re me ge = absurd (cc)
set_same (d ∷ cs) c c' found st re me ge = elim (Bool-cases (d.type == c.type)) [
  | inl same ↦
      let this : some d ≡ some c' = rw (same) at found in
      let e : d ≡ c' = cc in
      rw (same)
        (ap (λ x. x ∷ cs) (revised_same d c (rw (e) st) (rw (e) re) (rw (e) me) (rw (e) ge)))
  | inr other ↦
      rw (other) (ap (λ rest. d ∷ rest) (set_same cs c c' (rw (other) at found) st re me ge))
]

pub conditions-IsConditionApi : IsConditionApi conditions
conditions-IsConditionApi = record {
  find-set_self = find-set_self;
  find-set_ne = find-set_ne;
  set_same = set_same;
}

ok-injective :
    (r : Result Error (List OwnerReference)) (x y : List OwnerReference)
    → r ≡ ok x
    → r ≡ ok y
    → y ≡ x
ok-injective r x y e f = cc

set-controls :
    (a : HermesAgent) (owners owners' : List OwnerReference)
    → ownership.set_controller_reference a owners ≡ ok owners'
    → ownership.is_controlled_by owners' a ≡ true
set-controls a owners owners' e =
    let set = ownership.set_controller_reference a owners in
    elim (Bool-cases (owned_by owners a.uid)) [
      | inl mine ↦ rw (ok-injective set owners owners' (rw (mine)) e) mine
      | inr foreign ↦
          rw (ok-injective set (reference a ∷ owners) owners' (rw (foreign)) e) (rw (eq_refl a.uid))
    ]

pub ownership-IsOwnership : IsOwnership ownership
ownership-IsOwnership = record {
  set_controls = λ a owners owners' e. set-controls a owners owners' e;
  set_again = λ a owners h. rw (h);
}

abbrev pub client : Client Cluster
client = record {
  config_maps = store (λ s. s.config_maps) (λ m s. record s { config_maps = m });
  secrets = record {
    get = λ key s. (err (not_found "missing"), s);
    create_or_update = λ key mutate s. (ok tt, s);
    delete = λ key s. (ok tt, s);
  };
  claims = store (λ s. s.claims) (λ m s. record s { claims = m });
  stateful_sets = store (λ s. s.stateful_sets) (λ m s. record s { stateful_sets = m });
  services = store (λ s. s.services) (λ m s. record s { services = m });
  network_policies = store (λ s. s.network_policies) (λ m s. record s { network_policies = m });
  disruption_budgets =
      store (λ s. s.disruption_budgets) (λ m s. record s { disruption_budgets = m });
  get_agent = λ key s. found_or_missing (lookup key.name s.agents) s;
  list_agents = λ ns s. (ok [], s);
  patch_status = λ o after s. (ok after, s);
  recorder = none;
}

abbrev pub env : Environment Cluster
env = record {
  client = client;
  ownership = ownership;
  conditions = conditions;
  equal_status = same_agent_status;
  digest = λ payload. "hash";
  yaml = λ content. none;
  parse_quantity = λ q. ok q;
  now = "now";
}
