-- ===== src/Cluster/Steps.antt =====
-- The steps of cmd/main.go that may fail.
pub data Step : Type 0 where
  webhook_watcher_made : Step
  metrics_watcher_made : Step
  config_loaded : Step
  manager_made : Step
  training_controller_made : Step
  instance_controller_made : Step
  metrics_watcher_added : Step
  webhook_watcher_added : Step
  healthz_added : Step
  readyz_added : Step
  manager_started : Step
