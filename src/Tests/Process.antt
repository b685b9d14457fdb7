-- ===== src/Tests/Process.antt =====
-- A process whose second health check is refused, and its options.
use spot_instance_training_o.Base.{◌≡◌, String, append, none, some, [], ◌∷◌}
use spot_instance_training_o.Cluster.Errors.{ok, new_error}
use spot_instance_training_o.Cluster.Hoare.{Yields}
use spot_instance_training_o.Manager.Options.{Flags, TlsConfig, default_flags, manager_options}
use spot_instance_training_o.Manager.{Platform, main}
use spot_instance_training_o.Manager.Plan.{plan, Ran, main-Ran}
use spot_instance_training_o.Manager.Secured.{apply_all, manager_options-expected}
use spot_instance_training_o.Tests.Clouds.{start}

abbrev not_ready : Platform String (Unit {0}) (Unit {0})
not_ready = record {
  join_path = λ dir file. append dir (append "/" file);
  new_cert_watcher = λ cert key s. (ok cert, s);
  get_config = λ s. (none, s);
  new_manager = λ options s. (ok tt, s);
  complete = λ controller mgr s. (none, s);
  add = λ mgr v s. (none, s);
  add_healthz_check = λ mgr name s. (none, s);
  add_readyz_check = λ mgr name s. (some (new_error "check exists"), s);
  start = λ mgr s. (none, s);
}

abbrev with_metrics_certs : Flags
with_metrics_certs = record default_flags { metrics_cert_path = "/certs" }

main-Ran_example :
    Yields (main not_ready with_metrics_certs start) (Ran (plan with_metrics_certs) [])
main-Ran_example = main-Ran not_ready with_metrics_certs start

abbrev plain_config : TlsConfig String
plain_config = record { next_protos = "h2" ∷ []; get_certificate = none }

manager_options-expected_example :
    (apply_all
        (manager_options {V = String} with_metrics_certs none
          (some "/certs/tls.crt")).metrics.tls_opts
        plain_config
      ≡ record { next_protos = "http/1.1" ∷ []; get_certificate = some "/certs/tls.crt" })
    × (apply_all
          (manager_options {V = String} with_metrics_certs none
            (some "/certs/tls.crt")).webhook_tls_opts
          plain_config
        ≡ record { next_protos = "http/1.1" ∷ []; get_certificate = none })
    × ((manager_options {V = String} with_metrics_certs none
          (some "/certs/tls.crt")).metrics.has_filter
        ≡ (manager_options {V = String} with_metrics_certs none
            (some "/certs/tls.crt")).metrics.secure_serving)
manager_options-expected_example =
    manager_options-expected with_metrics_certs none (some "/certs/tls.crt") plain_config
