-- ===== src/Manager/Options.antt =====
-- The flags of cmd/main.go, and the options that it makes of them.
use spot_instance_training_o.Base.{
  Bool, true, false, String, Option, none, some, List, [], ◌∷◌, ◌++◌, not, if◌then◌else◌,
}

-- The kinds of object that the controllers look at.
pub data Kind : Type 0 where
  spot_instance_job : Kind
  provisioned_instance : Kind
  job : Kind

-- What `SetupWithManager` builds: `For`, `Owns` and `Named`.
pub record Controller : Type 0 where
  pub reconciled : Kind
  pub owned : List Kind
  pub name : String

-- A training job is reconciled when it changes, or a job or an instance that it controls.
abbrev pub training_controller : Controller
training_controller = record {
  reconciled = spot_instance_job;
  owned = job ∷ provisioned_instance ∷ [];
  name = "spotinstancejob";
}

abbrev pub instance_controller : Controller
instance_controller = record {
  reconciled = provisioned_instance;
  owned = [];
  name = "provisionedinstance";
}

pub record Flags : Type 0 where
  pub metrics_addr : String
  pub metrics_cert_path : String
  pub metrics_cert_name : String
  pub metrics_cert_key : String
  pub webhook_cert_path : String
  pub webhook_cert_name : String
  pub webhook_cert_key : String
  pub enable_leader_election : Bool
  pub probe_addr : String
  pub secure_metrics : Bool
  pub enable_http2 : Bool

-- The flags where none is given.
abbrev pub default_flags : Flags
default_flags = record {
  metrics_addr = "0";
  metrics_cert_path = "";
  metrics_cert_name = "tls.crt";
  metrics_cert_key = "tls.key";
  webhook_cert_path = "";
  webhook_cert_name = "tls.crt";
  webhook_cert_key = "tls.key";
  enable_leader_election = false;
  probe_addr = ":8081";
  secure_metrics = true;
  enable_http2 = false;
}

-- `tls.Config`, as far as it is set; the certificate is asked of a watcher.
pub record TlsConfig (V : Type 0) : Type 0 where
  pub next_protos : List String
  pub get_certificate : Option V

abbrev pub TlsOption : Type 0 → Type 0
TlsOption V = TlsConfig V → TlsConfig V

unfoldable pub disable_http2 : {V : Type 0} → TlsOption V
disable_http2 c = record c { next_protos = "http/1.1" ∷ [] }

-- `config.GetCertificate = watcher.GetCertificate`
unfoldable pub with_certificate : {V : Type 0} → V → TlsOption V
with_certificate v c = record c { get_certificate = some v }

-- `tlsOpts`
unfoldable pub tls_options : {V : Type 0} → Flags → List (TlsOption V)
tls_options flags = if not flags.enable_http2 then disable_http2 ∷ [] else []

-- `append(opts, …)`, where there is a watcher.
unfoldable pub with_watcher : {V : Type 0} → Option V → List (TlsOption V) → List (TlsOption V)
with_watcher none opts = opts
with_watcher (some v) opts = opts ++ with_certificate v ∷ []

-- `metricsserver.Options`; whether the filter for authentication and authorisation is set.
pub record MetricsOptions (V : Type 0) : Type 0 where
  pub bind_address : String
  pub secure_serving : Bool
  pub tls_opts : List (TlsOption V)
  pub has_filter : Bool

-- `ctrl.Options`, with the options of the webhook server.
pub record ManagerOptions (V : Type 0) : Type 0 where
  pub metrics : MetricsOptions V
  pub webhook_tls_opts : List (TlsOption V)
  pub health_probe_bind_address : String
  pub leader_election : Bool
  pub leader_election_id : String

unfoldable pub metrics_options : {V : Type 0} → Flags → Option V → MetricsOptions V
metrics_options flags watcher = record {
  bind_address = flags.metrics_addr;
  secure_serving = flags.secure_metrics;
  tls_opts = with_watcher watcher (tls_options flags);
  has_filter = flags.secure_metrics;
}

unfoldable pub manager_options : {V : Type 0} → Flags → Option V → Option V → ManagerOptions V
manager_options flags webhook metrics = record {
  metrics = metrics_options flags metrics;
  webhook_tls_opts = with_watcher webhook (tls_options flags);
  health_probe_bind_address = flags.probe_addr;
  leader_election = flags.enable_leader_election;
  leader_election_id = "5ba5b009.training.dcnlab.com";
}
