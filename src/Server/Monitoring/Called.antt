-- ===== src/Server/Monitoring/Called.antt =====
-- What the monitoring of a Vault server has called that ends without an error.
use vault_operator.Base.{
  String, ◌≡◌, refl, sym, ◌∙◌, ap, inl, inr, Bool-cases, if◌then◌else◌, Option, none, some,
  Option-cases, Result-cases, List, [], ◌∷◌, ◌++◌, ◌==◌, Error, arith,
}
use vault_operator.Meta.{Vendor}
use vault_operator.Server.Spec.{MonitorSpec, ExporterSpec}
use vault_operator.Server.Cluster.{
  Server, Call, ensure_stats_service, delete_stats_service, delete_agent, create_or_update_agent,
  annotate_service, Event, called, Env, returned, calls,
}
use mathlib.Core.List.{append_assoc}
use vault_operator.Server.Monitoring.{
  stats_service, get_old_agent, delete_old, set_new_agent, update_agent, add_or_update_monitor,
  managed, manage_monitor,
}

-- The call for the stats service: it is made for an exporter and deleted otherwise.
abbrev pub stats_call : String → Option MonitorSpec → Call
stats_call name none = delete_stats_service name
stats_call name (some m) = elim m.prometheus [
  | none ↦ delete_stats_service name
  | some exporter ↦ elim exporter [
    | none ↦ delete_stats_service name
    | some e ↦ ensure_stats_service name
  ]
]

-- The calls for the agents, newest first: the old agent is deleted if it is not the one that is asked
-- for, with any error, and that one is set up and noted without an error.
abbrev pub old_calls : Option String → String → Option Error → List (Call × Option Error)
old_calls none agent e = []
old_calls (some t) agent e = if t == agent then [] else (delete_agent t, e) ∷ []

abbrev pub agent_calls :
    Option MonitorSpec → Option String → Option Error → List (Call × Option Error)
agent_calls none none e = []
agent_calls none (some t) e = (delete_agent t, e) ∷ []
agent_calls (some m) old e =
    (annotate_service m.agent, none)
    ∷ (create_or_update_agent m.agent, none)
    ∷ old_calls old m.agent e

module _ (v : Vendor) (env : Env) where
  -- The calls of the monitoring: that for the stats service, with any error, and after it those for
  -- the agents, where the old agent is the one that was found at some trace.
  pub record IsMonitored (name : String) (monitor : Option MonitorSpec)
      (made : List (Call × Option Error)) : Type 0 where
    pub stats_error : Option Error
    pub delete_error : Option Error
    pub read : List Event
    pub calls_lem :
        made
        ≡ agent_calls monitor (get_old_agent v env read) delete_error
          ++ ((stats_call (v.name_with_suffix name "stats") monitor, stats_error) ∷ [])

  stats_lem :
      (vs : Server) (h : List Event)
      → let c = stats_call (v.name_with_suffix vs.meta.name "stats") vs.spec.monitor in
        calls (stats_service v env vs h).1 ≡ (c, env.call h c) ∷ calls h
  unfolding stats_service
  stats_lem vs h = elim (Option-cases vs.spec.monitor) [
    | inl p ↦ rw (p, stats_service) refl
    | inr (m, p) ↦ elim (Option-cases m.prometheus) [
      | inl q ↦ rw (p, q, stats_service) refl
      | inr (none, q) ↦ rw (p, q, stats_service) refl
      | inr (some x, q) ↦ rw (p, q, stats_service) refl
    ]
  ]

  old_lem :
      (old : Option String) (agent : String) (h : List Event)
      → (e : Option Error) × (calls (delete_old v env old agent h).1
          ≡ old_calls old agent e ++ calls h)
  unfolding delete_old
  old_lem none agent h = (none, refl)
  old_lem (some t) agent h = elim (Bool-cases (t == agent)) [
    | inl p ↦ (none, rw (p, delete_old) refl)
    | inr p ↦ (env.call h (delete_agent t), rw (p, delete_old) refl)
  ]

  new_lem :
      (m : MonitorSpec) (h : List Event)
      → (set_new_agent v env m h).0 ≡ returned none
      → calls (set_new_agent v env m h).1 ≡ (annotate_service m.agent, none) ∷ calls h
  unfolding set_new_agent
  new_lem m h ends = elim (Result-cases (env.agent_annotation h)) [
    | inr (e, p) ↦ absurd (ground arith)
    | inl (t, p) ↦ elim (Option-cases (env.call h (annotate_service m.agent))) [
      | inl q ↦
          let same : set_new_agent v env m h
              ≡ (returned none, called (annotate_service m.agent) none ∷ h) =
            ground arith in
          ap (λ x. calls x.1) same
      | inr (x, q) ↦ absurd (ground arith)
    ]
  ]

  update_lem :
      (m : MonitorSpec) (p : Option (Option ExporterSpec)) (h : List Event)
      → (update_agent v env m p (set_new_agent v env m) h).0 ≡ returned none
      → calls (update_agent v env m p (set_new_agent v env m) h).1
        ≡ (annotate_service m.agent, none) ∷ (create_or_update_agent m.agent, none) ∷ calls h
  unfolding update_agent
  update_lem m none h ends = absurd (ground arith)
  update_lem m (some none) h ends = absurd (ground arith)
  update_lem m (some (some port)) h ends = elim (Bool-cases (env.is_agent m.agent)) [
    | inr p ↦ absurd (ground arith)
    | inl p ↦ elim (Option-cases (env.call h (create_or_update_agent m.agent))) [
      | inr (x, q) ↦ absurd (ground arith)
      | inl q ↦
          let same : update_agent v env m (some (some port)) (set_new_agent v env m) h
              ≡ set_new_agent v env m (called (create_or_update_agent m.agent) none ∷ h) =
            ground arith in
          ap (λ x. calls x.1) same ∙ new_lem m _ (ap (λ x. x.0) (sym same) ∙ ends)
    ]
  ]

  agent_lem :
      (old : Option String) (m : MonitorSpec) (h : List Event)
      → let r =
          update_agent v env m m.prometheus
            (set_new_agent v env m)
            (delete_old v env old m.agent h).1 in
        r.0 ≡ returned none
        → (e : Option Error) × (calls r.1 ≡ agent_calls (some m) old e ++ calls h)
  agent_lem old m h ends =
      let (e, p) = old_lem old m.agent h in
      (
        e,
        update_lem m m.prometheus _ ends
            ∙ ap
                (λ t. (annotate_service m.agent, none) ∷ (create_or_update_agent m.agent, none) ∷ t)
                p,
      )

  managed_lem :
      (old : Option String) (monitor : Option MonitorSpec) (h : List Event)
      → (managed v env old monitor h).0 ≡ returned none
      → (e : Option Error) × (calls (managed v env old monitor h).1
          ≡ agent_calls monitor old e ++ calls h)
  unfolding managed add_or_update_monitor
  managed_lem none none h ends = (none, refl)
  managed_lem (some t) none h ends = (env.call h (delete_agent t), refl)
  managed_lem none (some m) h ends = agent_lem none m h ends
  managed_lem (some t) (some m) h ends = agent_lem (some t) m h ends

  pub monitoring_lem :
      (vs : Server) (h : List Event)
      → (manage_monitor v env vs (stats_service v env vs h).1).0 ≡ returned none
      → (made : List (Call × Option Error)) × IsMonitored vs.meta.name vs.spec.monitor made
        × (calls (manage_monitor v env vs (stats_service v env vs h).1).1 ≡ made ++ calls h)
  unfolding manage_monitor
  monitoring_lem vs h ends =
      let g = (stats_service v env vs h).1 in
      let p = stats_lem vs h in
      let (e', q) = managed_lem (get_old_agent v env g) vs.spec.monitor g ends in
      let stats = stats_call (v.name_with_suffix vs.meta.name "stats") vs.spec.monitor in
      let e = env.call h stats in
      let agents = agent_calls vs.spec.monitor (get_old_agent v env g) e' in
      (
        agents ++ ((stats, e) ∷ []),
        record { stats_error = e; delete_error = e'; read = g; calls_lem = refl },
        q ∙ ap (λ t. agents ++ t) p ∙ sym (append_assoc agents ((stats, e) ∷ []) (calls h)),
      )
