-- ===== src/Server/Monitoring/Panics.antt =====
-- When the monitoring of a Vault server panics.
use vault_operator.Base.{
  String, ◌≡◌, ◌≢◌, ◌⊎◌, refl, sym, List, ◌∷◌, inl, inr, false, Bool-cases, Option, none, some,
  Option-cases, arith,
}
use mathlib.Core.Logic.{◌↔◌}
use mathlib.Core.Path.{subst}
use vault_operator.Meta.{Vendor}
use vault_operator.Server.Spec.{MonitorSpec, ExporterSpec}
use vault_operator.Server.Cluster.{Server, Event, Env, called, panicked, create_or_update_agent}
use vault_operator.Server.Monitoring.{
  get_old_agent, delete_old, set_new_agent, update_agent, add_or_update_monitor, managed,
  manage_monitor,
}

module _ (v : Vendor) (env : Env) where
  -- A monitor of Prometheus without an exporter, or with an agent that is none of the known ones.
  abbrev pub IsNil : MonitorSpec → Type 0
  IsNil m =
      (m.prometheus ≡ some none)
      ⊎ ((x : ExporterSpec) × (m.prometheus ≡ some (some x)) × (env.is_agent m.agent ≡ false))

  abbrev pub Panics : Option MonitorSpec → Type 0
  Panics monitor = (m : MonitorSpec) × (monitor ≡ some m) × IsNil m

  annotated : (m : MonitorSpec) (h : List Event) → (set_new_agent v env m h).0 ≢ panicked
  unfolding set_new_agent
  annotated m h p = ground arith

  update_agent-IsNil :
      (m : MonitorSpec) (p : Option (Option ExporterSpec)) (h : List Event)
      → m.prometheus ≡ p
      → (update_agent v env m p (set_new_agent v env m) h).0 ≡ panicked
      → IsNil m
  unfolding update_agent
  update_agent-IsNil m none h q r = absurd (ground arith)
  update_agent-IsNil m (some none) h q r = inl q
  update_agent-IsNil m (some (some x)) h q r = elim (Bool-cases (env.is_agent m.agent)) [
    | inr a ↦ inr (x, q, a)
    | inl a ↦ elim (Option-cases (env.call h (create_or_update_agent m.agent))) [
      | inr (e, b) ↦ absurd (ground arith)
      | inl b ↦
          absurd (annotated m (called (create_or_update_agent m.agent) none ∷ h) (ground arith))
    ]
  ]

  update_agent-panicked :
      (m : MonitorSpec) (h : List Event)
      → IsNil m
      → (update_agent v env m m.prometheus (set_new_agent v env m) h).0 ≡ panicked
  unfolding update_agent
  update_agent-panicked m h (inl p) = rw (p, update_agent) refl
  update_agent-panicked m h (inr (x, p, a)) = rw (p, a, update_agent) refl

  managed-Panics :
      (old : Option String) (monitor : Option MonitorSpec) (h : List Event)
      → (managed v env old monitor h).0 ≡ panicked
      → Panics monitor
  unfolding managed add_or_update_monitor
  managed-Panics none none h p = absurd (ground arith)
  managed-Panics (some t) none h p = absurd (ground arith)
  managed-Panics none (some m) h p =
      (m, refl, update_agent-IsNil m m.prometheus (delete_old v env none m.agent h).1 refl p)
  managed-Panics (some t) (some m) h p =
      (m, refl, update_agent-IsNil m m.prometheus (delete_old v env (some t) m.agent h).1 refl p)

  managed-panicked :
      (old : Option String) (m : MonitorSpec) (h : List Event)
      → IsNil m
      → (managed v env old (some m) h).0 ≡ panicked
  unfolding managed add_or_update_monitor
  managed-panicked none m h n = update_agent-panicked m _ n
  managed-panicked (some t) m h n = update_agent-panicked m _ n

  -- The management of the monitor of a server panics exactly if the server has a monitor of
  -- Prometheus without an exporter, or one with an exporter whose agent is none of the known ones,
  -- whatever the cluster answers.
  pub manage_monitor-panicked_iff :
      (vs : Server) (h : List Event)
      → ((manage_monitor v env vs h).0 ≡ panicked) ↔ Panics vs.spec.monitor
  unfolding manage_monitor
  manage_monitor-panicked_iff vs h = (
    managed-Panics (get_old_agent v env h) vs.spec.monitor h,
    λ (m, p, n).
        let q = managed-panicked (get_old_agent v env h) m h n in
        subst (λ x. (managed v env (get_old_agent v env h) x h).0 ≡ panicked) (sym p) q,
  )
