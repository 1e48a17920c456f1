-- ===== src/Agents/Capabilities/Laws.antt =====
-- What the models that an agent offers allow to select.
use pair_dock.Prelude.{
  String, true, false, Option, none, some, List, [], ◌∷◌, ◌==◌, ◌≡◌, refl, sym, ap, subst, ◌⊎◌, inl,
  inr, any, find, keep, map, ok, Bool-cases, Option-cases, eq_iff, eq_refl, arith,
}
use mathlib.Core.List.{Mem, mem-cons_self, mem-cons_of_mem}
use pair_dock.Prelude.Dict.{get, find-values}
use pair_dock.Agents.Registry.{
  ReasoningEffort, AgentModel, ConnectedAgentSnapshot, Registry, list_snapshots,
}
use pair_dock.Agents.Registry.Invariant.{IsConsistent}
use pair_dock.Agents.Capabilities.{
  SessionExecutionSelection, OfferedModel, medium, serves, non_empty, models_of, is_allowed,
  efforts_of, first_effort, default_effort, offer, offered_by, list_models_for_project, is_model,
  select_from, resolve_session_selection,
}

-- A default that is one of the model's efforts.
abbrev pub HasDefault : OfferedModel → Type 0
HasDefault m = any (λ e. e.id == m.default_reasoning_effort) m.reasoning_efforts ≡ true

default_effort_known :
    (efforts : List ReasoningEffort) (id : String)
    → any (λ x. x.id == id) efforts ≡ true
    → default_effort efforts (some id) ≡ id
default_effort_known efforts id known = rw known refl

default_effort_unknown :
    (efforts : List ReasoningEffort) (id : String)
    → any (λ x. x.id == id) efforts ≡ false
    → default_effort efforts (some id) ≡ first_effort efforts
default_effort_unknown efforts id unknown = rw unknown refl

default_effort_offered :
    (e : ReasoningEffort) (efforts : List ReasoningEffort) (chosen : Option String)
    → any (λ x. x.id == default_effort (e ∷ efforts) chosen) (e ∷ efforts) ≡ true
default_effort_offered e efforts none = rw (eq_refl e.id) refl
default_effort_offered e efforts (some id) =
    elim (Bool-cases (any (λ x. x.id == id) (e ∷ efforts))) [
      | inl known ↦
          subst (λ d. any (λ x. x.id == d) (e ∷ efforts) ≡ true)
            (sym (default_effort_known (e ∷ efforts) id known)) known
      | inr unknown ↦
          subst (λ d. any (λ x. x.id == d) (e ∷ efforts) ≡ true)
            (sym (default_effort_unknown (e ∷ efforts) id unknown)) (rw (eq_refl e.id) refl)
    ]

offer-HasDefault : (m : AgentModel) → HasDefault (offer m)
offer-HasDefault m = elim (Option-cases m.reasoning_efforts) [
  | inl e ↦ rw e (default_effort_offered medium [] m.default_reasoning_effort)
  | inr ([], e) ↦ rw e (default_effort_offered medium [] m.default_reasoning_effort)
  | inr (x ∷ xs, e) ↦ rw e (default_effort_offered x xs m.default_reasoning_effort)
]

-- What a search among the offers of some models finds is an offer of one of them.
find-offers :
    (id : String) (allowed : Option (List String)) (models : List AgentModel) {m : OfferedModel}
    → find (is_model id) (map offer (keep (is_allowed allowed) models)) ≡ some m
    → (a : AgentModel) × Mem a models × (is_allowed allowed a ≡ true) × (a.id ≡ id) × (offer a ≡ m)
find-offers id allowed [] h = cc
find-offers id allowed (a ∷ models) {m} h = elim (Bool-cases (is_allowed allowed a)) [
  | inr refused ↦
      let (b, listed, may, name, offered) = find-offers id allowed models (rw refused at h) in
      (b, mem-cons_of_mem a listed, may, name, offered)
  | inl may ↦ elim (Bool-cases (a.id == id)) [
    | inl same ↦ (a, mem-cons_self, may, (eq_iff a.id id).0 same, ground arith)
    | inr other ↦
        let (b, listed, may', name, offered) = find-offers id allowed models (ground arith) in
        (b, mem-cons_of_mem a listed, may', name, offered)
  ]
]

select_from-found :
    (models : List OfferedModel) (selection : SessionExecutionSelection) {m : OfferedModel}
    → find (is_model selection.model_id) models ≡ some m
    → any (λ e. e.id == selection.reasoning_effort) m.reasoning_efforts ≡ true
    → select_from models selection ≡ ok selection
select_from-found [] selection h known = refl
select_from-found (x ∷ models) selection h known = ground (arith, h, known)

select_from-ok :
    (models : List OfferedModel) (selection chosen : SessionExecutionSelection)
    → select_from models selection ≡ ok chosen
    → (chosen ≡ selection)
      × ((models ≡ [])
          ⊎ ((m : OfferedModel) × (find (is_model selection.model_id) models ≡ some m)
              × (any (λ e. e.id == selection.reasoning_effort) m.reasoning_efforts ≡ true)))
select_from-ok [] selection chosen h = (ground arith, inl refl)
select_from-ok (x ∷ models) selection chosen h =
    elim (Option-cases (find (is_model selection.model_id) (x ∷ models))) [
      | inl missing ↦ absurd (ground arith)
      | inr (m, found) ↦
          elim (Bool-cases (any (λ e. e.id == selection.reasoning_effort) m.reasoning_efforts)) [
            | inl known ↦ (ground (arith, found, known), inr (m, found, known))
            | inr unknown ↦ absurd (ground (arith, found, unknown))
          ]
    ]

-- A connected agent that serves the key has announced a model of this name, which the project allows,
-- and which has the effort.
pub record IsOffered (key : String) (selection : SessionExecutionSelection) (r : Registry)
    : Type 0 where
  pub agent_id : String
  pub snapshot : ConnectedAgentSnapshot
  pub model : AgentModel
  pub registered : get agent_id r.snapshot_by_agent_id ≡ some snapshot
  pub serving : serves key snapshot ≡ true
  pub listed : Mem model snapshot.models
  pub named : model.id ≡ selection.model_id
  pub allowed :
      is_allowed (non_empty (models_of (find (λ p. p.key == key) snapshot.projects))) model ≡ true
  pub supported : any (λ e. e.id == selection.reasoning_effort) (efforts_of model) ≡ true

module _ (key : String) (r : Registry) (c : IsConsistent r) where
  list_models_by :
      {snapshot : ConnectedAgentSnapshot}
      → find (serves key) (list_snapshots r) ≡ some snapshot
      → list_models_for_project key r ≡ offered_by key snapshot
  unfolding list_models_for_project
  list_models_by e = ap (λ o. elim o [ none ↦ [] | some s ↦ offered_by key s ]) e

  found_offer :
      (selection : SessionExecutionSelection) (m : OfferedModel)
      → find (is_model selection.model_id) (list_models_for_project key r) ≡ some m
      → (snapshot : ConnectedAgentSnapshot) × (model : AgentModel) × (find
            (serves key)
            (list_snapshots r)
          ≡ some snapshot)
        × Mem model snapshot.models
        × (is_allowed (non_empty (models_of (find (λ p. p.key == key) snapshot.projects))) model
            ≡ true)
        × (model.id ≡ selection.model_id)
        × (offer model ≡ m)
  unfolding list_models_for_project
  found_offer selection m h = elim (Option-cases (find (serves key) (list_snapshots r))) [
    | inl none_serves ↦ absurd (ground arith)
    | inr (snapshot, serving) ↦
        let same : list_models_for_project key r ≡ offered_by key snapshot =
          list_models_by serving in
        let (model, listed, allowed, named, offered) =
          find-offers selection.model_id
            (non_empty (models_of (find (λ p. p.key == key) snapshot.projects))) snapshot.models
            (subst (λ models. find (is_model selection.model_id) models ≡ some m) same h) in
        (snapshot, model, serving, listed, allowed, named, offered)
  ]

  -- Over a consistent registry, a selection that passes is passed on unchanged, and unless no model
  -- is offered for the project at all, a connected agent that serves the project has announced a
  -- model of that name, which the project allows and which has that effort; the effort is the medium
  -- one where the model announces none.
  pub resolve_selection-IsOffered :
      (selection chosen : SessionExecutionSelection)
      → resolve_session_selection key selection r ≡ ok chosen
      → (chosen ≡ selection) × ((list_models_for_project key r ≡ []) ⊎ IsOffered key selection r)
  unfolding resolve_session_selection list_snapshots
  resolve_selection-IsOffered selection chosen h =
      let (same, offered) = select_from-ok (list_models_for_project key r) selection chosen h in
      (
        same,
        elim offered [
          | inl empty ↦ inl empty
          | inr (m, found, known) ↦
              let (snapshot, model, serving, listed, allowed, named, origin) =
                found_offer selection m found in
              let (agent_id, registered, serves') =
                find-values (serves key) r.snapshot_by_agent_id c.distinct serving in
              inr (record {
                agent_id = agent_id;
                snapshot = snapshot;
                model = model;
                registered = registered;
                serving = serves';
                listed = listed;
                named = named;
                allowed = allowed;
                supported =
                    subst
                      (λ o.
                        any (λ e. e.id == selection.reasoning_effort) o.reasoning_efforts ≡ true)
                      (sym origin) known;
              })
        ],
      )

  -- Over a consistent registry, the first offered model of a name can be selected with the effort
  -- that is offered as its default.
  pub resolve_selection-default :
      (id : String) (m : OfferedModel)
      → find (is_model id) (list_models_for_project key r) ≡ some m
      → resolve_session_selection key
          (record { model_id = id; reasoning_effort = m.default_reasoning_effort })
          r
        ≡ ok (record { model_id = id; reasoning_effort = m.default_reasoning_effort })
  unfolding resolve_session_selection
  resolve_selection-default id m h =
      let selection : SessionExecutionSelection = record {
        model_id = id;
        reasoning_effort = m.default_reasoning_effort;
      } in
      let (snapshot, model, serving, listed, allowed, named, origin) = found_offer selection m h in
      select_from-found (list_models_for_project key r) selection h
        (subst HasDefault origin (offer-HasDefault model))
