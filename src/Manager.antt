-- ===== src/Manager.antt =====
-- cmd/main.go: the set-up of the process. controller-runtime and the certificate watchers are
-- parameters. Go's `append` of an option to a full slice makes a new one, as a list does here.
pub mod Options
pub mod Plan
pub mod Secured
use spot_instance_training_o.Base.{
  ℕ, Bool, true, false, String, Option, none, some, List, [], ◌∷◌, str_eq,
}
use spot_instance_training_o.Cluster.Errors.{Error, Result, ok, err}
use spot_instance_training_o.Cluster.Steps.{
  Step, webhook_watcher_made, metrics_watcher_made, config_loaded, manager_made,
  training_controller_made, instance_controller_made, metrics_watcher_added, webhook_watcher_added,
  healthz_added, readyz_added, manager_started,
}
use spot_instance_training_o.Cluster.Events.{process_step}
use spot_instance_training_o.Cluster.Prog.{Prog, pure, branch, ◌>>=◌, act}
use spot_instance_training_o.Manager.Options.{
  Flags, Controller, training_controller, instance_controller, ManagerOptions, manager_options,
}

-- `certwatcher.New`, `ctrl.GetConfigOrDie`, `ctrl.NewManager`, `Complete` of a controller's builder,
-- and methods of the manager. `V` is a certificate watcher, `M` a manager.
pub record Platform (V M W : Type 0) : Type 0 where
  pub join_path : String → String → String
  pub new_cert_watcher : String → String → W → Result V × W
  pub get_config : W → Option Error × W
  pub new_manager : ManagerOptions V → W → Result M × W
  pub complete : Controller → M → W → Option Error × W
  pub add : M → V → W → Option Error × W
  pub add_healthz_check : M → String → W → Option Error × W
  pub add_readyz_check : M → String → W → Option Error × W
  pub start : M → W → Option Error × W

-- The error of an answer.
abbrev pub error_of : {A : Type 0} → Result A → Option Error
error_of (err e) = some e
error_of (ok a) = none

module _ {V M W : Type 0} (platform : Platform V M W) where
  -- A step whose error ends the process with `os.Exit(1)`.
  unfoldable pub or_exit : Prog W (Option Error) → Prog W ℕ → Prog W ℕ
  or_exit step rest = do failed ← step; elim failed [ some e ↦ pure 1 | none ↦ rest ]

  abbrev pub step_of : Step → (W → Option Error × W) → Prog W (Option Error)
  step_of step call = act call (process_step step)

  -- No watcher without a directory of certificates.
  unfoldable pub cert_watcher : Step → String → String → String → Prog W (Result (Option V))
  cert_watcher step path name key = branch (str_eq path "") (pure (ok none)) (do
    made ←
        act (platform.new_cert_watcher (platform.join_path path name) (platform.join_path path key))
          (λ r. process_step step (error_of r))
    pure (elim made [ err e ↦ err e | ok v ↦ ok (some v) ]))

  -- `mgr.Add`, where there is a watcher.
  unfoldable pub add_watcher : Step → M → Option V → Prog W (Option Error)
  add_watcher step mgr none = pure none
  add_watcher step mgr (some v) = step_of step (platform.add mgr v)

  -- What is done with the manager. `Start` returns when the process is told to stop.
  unfoldable pub run_manager : M → Option V → Option V → Prog W ℕ
  run_manager mgr webhook metrics =
      or_exit (step_of training_controller_made (platform.complete training_controller mgr)) (
        or_exit (step_of instance_controller_made (platform.complete instance_controller mgr)) (
          or_exit (add_watcher metrics_watcher_added mgr metrics) (
            or_exit (add_watcher webhook_watcher_added mgr webhook) (
              or_exit (step_of healthz_added (platform.add_healthz_check mgr "healthz")) (
                or_exit (step_of readyz_added (platform.add_readyz_check mgr "readyz"))
                  (or_exit (step_of manager_started (platform.start mgr)) (pure 0)))))))

  unfoldable pub with_watchers : Flags → Option V → Option V → Prog W ℕ
  with_watchers flags webhook metrics = or_exit (step_of config_loaded platform.get_config) (do
    made ←
        act (platform.new_manager (manager_options flags webhook metrics))
          (λ r. process_step manager_made (error_of r))
    elim made [ err e ↦ pure 1 | ok mgr ↦ run_manager mgr webhook metrics ])

  -- `main` with its flags: the exit status.
  unfoldable pub main : Flags → Prog W ℕ
  main flags = do
    webhook ←
        cert_watcher webhook_watcher_made flags.webhook_cert_path flags.webhook_cert_name
          flags.webhook_cert_key
    elim webhook [
      | err e ↦ pure 1
      | ok webhook_watcher ↦ do
        metrics ←
            cert_watcher metrics_watcher_made flags.metrics_cert_path flags.metrics_cert_name
              flags.metrics_cert_key
        elim metrics [
          | err e ↦ pure 1
          | ok metrics_watcher ↦ with_watchers flags webhook_watcher metrics_watcher
        ]
    ]
