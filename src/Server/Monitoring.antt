-- ===== src/Server/Monitoring.antt =====
-- The monitoring of a Vault server: pkg/controller/monitor.go and its calls in `DeployVault` of
-- pkg/controller/vaultservers.go. A call of a method of a nil agent and a write through a nil pointer
-- panic. The port that `addOrUpdateMonitor` sets on the server in memory is read by the agent only.
pub mod Called
pub mod Panics
use vault_operator.Base.{
  is_nil, true, false, not, Bool, String, Option, none, some, List, ◌==◌, if◌then◌else◌, Error,
  message, ok, err, arith,
}
use vault_operator.Base.Act.{Act, pure, ◌>>=◌}
use vault_operator.Meta.{Vendor}
use vault_operator.Server.Spec.{MonitorSpec, ExporterSpec}
use vault_operator.Server.Cluster.{
  Server, Event, Env, Outcome, returned, panicked, perform, attempt, plain, ensure_stats_service,
  delete_stats_service, delete_agent, create_or_update_agent, annotate_service,
}

-- `vs.Spec.Monitor != nil && … .Prometheus != nil && … .Exporter != nil`.
abbrev pub has_exporter : Option MonitorSpec → Bool
has_exporter none = false
has_exporter (some m) = elim m.prometheus [ none ↦ false | some exporter ↦ not (is_nil exporter) ]

module _ (v : Vendor) (env : Env) where
  abbrev stats_service_name : Server → String
  stats_service_name vs = v.name_with_suffix vs.meta.name "stats"

  -- With an exporter the service is made, otherwise it is deleted; an error is only reported.
  unfoldable pub stats_service : Server → Act Event (Option Error)
  stats_service vs =
      if has_exporter vs.spec.monitor
      then perform env (ensure_stats_service (stats_service_name vs))
      else perform env (delete_stats_service (stats_service_name vs))

  -- `getOldAgent`: nil if the service is not there or names no agent.
  unfoldable pub get_old_agent : List Event → Option String
  get_old_agent h = elim (env.agent_annotation h) [
    | err _ ↦ none
    | ok t ↦ if env.is_agent t then some t else none
  ]

  -- The old agent is deleted if it is another one; an error is only logged.
  unfoldable pub delete_old : Option String → String → Act Event (Option Error)
  delete_old none agent = pure none
  delete_old (some t) agent = if t == agent then pure none else perform env (delete_agent t)

  unfoldable pub set_new_agent : MonitorSpec → Act Event Outcome
  set_new_agent m h = elim (env.agent_annotation h) [
    | err e ↦ (returned (some e), h)
    | ok _ ↦ attempt env plain (annotate_service m.agent) (pure (returned none)) h
  ]

  -- `newMonitorController`, the write of the port, and the call of the agent.
  unfoldable pub update_agent :
      MonitorSpec → Option (Option ExporterSpec) → Act Event Outcome → Act Event Outcome
  update_agent m none rest =
      pure (returned (some (message "monitoring controller not found for %v")))
  update_agent m (some none) rest = pure panicked
  update_agent m (some (some port)) rest =
      if env.is_agent m.agent
      then attempt env plain (create_or_update_agent m.agent) rest
      else pure panicked

  unfoldable pub add_or_update_monitor : MonitorSpec → Act Event Outcome → Act Event Outcome
  unfolding update_agent
  add_or_update_monitor m rest = update_agent m m.prometheus rest

  unfoldable pub managed : Option String → Option MonitorSpec → Act Event Outcome
  unfolding delete_old set_new_agent add_or_update_monitor
  managed none none = pure (returned none)
  managed (some t) none = do _ ← perform env (delete_agent t); pure (returned none)
  managed old (some m) = do _ ← delete_old old m.agent; add_or_update_monitor m (set_new_agent m)

  unfoldable pub manage_monitor : Server → Act Event Outcome
  unfolding get_old_agent managed
  manage_monitor vs h = managed (get_old_agent h) vs.spec.monitor h
