-- ===== src/Controller/Status/Settled.antt =====
-- Setting conditions that are set already.
use k8s_operator_hermes_agen.Common.{String, ◌≡◌, refl, ◌≢◌, some, ◌∙◌, ap}
use k8s_operator_hermes_agen.Api.{AgentStatus, Condition, ConditionStatus}
use k8s_operator_hermes_agen.Controller.Client.{ConditionApi, IsConditionApi}
use k8s_operator_hermes_agen.Controller.Status.{
  config_ready, persistence_ready, workload_ready, ready, set_condition,
}
use k8s_operator_hermes_agen.Controller.Status.Coherent.{distinct}

-- What a condition says: its status, reason and message.
abbrev pub Statement : Type 0
Statement = ConditionStatus × String × String

-- The condition of a type says this of the generation that was observed.
abbrev pub Says : ConditionApi → AgentStatus → String → Statement → Type 0
Says api s type said =
    (c : Condition) × (api.find s.conditions type ≡ some c)
    × (c.status ≡ said.0)
    × (c.reason ≡ said.1)
    × (c.message ≡ said.2)
    × (c.observed_generation ≡ s.observed_generation)

module _ (api : ConditionApi) (law : IsConditionApi api) (now : String) where
  abbrev pub state : String → Statement → AgentStatus → AgentStatus
  state type said = set_condition api now type said.0 said.1 said.2

  state_self :
      (type : String) (said : Statement) (s : AgentStatus) → Says api (state type said s) type said
  unfolding set_condition
  state_self type said s = law.find-set_self s.conditions (record {
    type = type;
    status = said.0;
    observed_generation = s.observed_generation;
    reason = said.1;
    message = said.2;
    last_transition_time = now;
  })

  state-other :
      (type asked : String) (said heard : Statement) (s : AgentStatus)
      → type ≢ asked
      → Says api s asked heard
      → Says api (state type said s) asked heard
  unfolding set_condition
  state-other type asked said heard s ne (c, found, st, re, me, ge) =
      (c, law.find-set_ne s.conditions _ asked ne ∙ found, st, re, me, ge)

  state-same :
      (type : String) (said : Statement) (s : AgentStatus)
      → Says api s type said
      → state type said s ≡ s
  unfolding set_condition
  state-same type said s (c, found, st, re, me, ge) =
      ap (λ cs. record s { conditions = cs }) (law.set_same s.conditions _ c found st re me ge)

module _ (api : ConditionApi) (law : IsConditionApi api) (c p w r : Statement) where
  -- The four conditions, in the order in which every writer of the status sets them.
  abbrev pub state_all : String → AgentStatus → AgentStatus
  state_all now s = state api law now ready r (
      state api law now workload_ready w
        (state api law now persistence_ready p (state api law now config_ready c s)))

  unfoldable SaysAll : AgentStatus → Type 0
  SaysAll s =
      Says api s config_ready c
      × Says api s persistence_ready p
      × Says api s workload_ready w
      × Says api s ready r

  state_all-SaysAll : (now : String) (s : AgentStatus) → SaysAll (state_all now s)
  unfolding SaysAll
  state_all-SaysAll now s = (
    search (state_self api law now, state-other api law now, distinct),
    search (state_self api law now, state-other api law now, distinct),
    search (state_self api law now, state-other api law now, distinct),
    search (state_self api law now),
  )

  -- Fields other than the conditions and the generation do not matter.
  SaysAll-elsewhere :
      (s s' : AgentStatus)
      → s'.conditions ≡ s.conditions
      → s'.observed_generation ≡ s.observed_generation
      → SaysAll s
      → SaysAll s'
  unfolding SaysAll
  SaysAll-elsewhere s s' same gen said = rw (same, gen) said

  state_all-same : (later : String) (s : AgentStatus) → SaysAll s → state_all later s ≡ s
  unfolding SaysAll
  state_all-same later s (config, persistence, workload, readiness) =
      rw
        (
          state-same api law later config_ready c s config,
          state-same api law later persistence_ready p s persistence,
          state-same api law later workload_ready w s workload,
          state-same api law later ready r s readiness,
        )
        refl

  -- Setting all four again, at a later time, changes nothing, also in a status whose other fields are
  -- different.
  pub state_all-again :
      (now later : String) (s s' : AgentStatus)
      → s'.conditions ≡ (state_all now s).conditions
      → s'.observed_generation ≡ s.observed_generation
      → state_all later s' ≡ s'
  unfolding set_condition
  state_all-again now later s s' same gen =
      state_all-same later s'
        (SaysAll-elsewhere (state_all now s) s' same gen (state_all-SaysAll now s))
