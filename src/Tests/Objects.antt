-- ===== src/Tests/Objects.antt =====
-- The objects of the tests: a template, a VM's object and a training job.
use spot_instance_training_o.Base.{ℕ, String, Option, none, some, [], ◌∷◌, pos, false}
use spot_instance_training_o.Api.Meta.{ObjectMeta, Labels, SecretReference}
use spot_instance_training_o.Api.Template.{GcpConfig, InstanceTemplate}
use spot_instance_training_o.Api.Instance.{ProvisionedInstance, ProvisionedInstanceStatus}
use spot_instance_training_o.Api.Training.{SpotInstanceJob}
use spot_instance_training_o.Api.Kube.{PodTemplate, JobSpec, Job, Secret, Node}
use spot_instance_training_o.Api.Compute.{Instance}
use spot_instance_training_o.TrainingController.Names.{replica_of}

abbrev pub meta_of : String → Labels → Option ℕ → ObjectMeta
meta_of name labels deleted = record {
  name = name;
  namespace = "default";
  uid = "uid";
  labels = labels;
  annotations = [];
  finalizers = [];
  owner_references = [];
  creation_timestamp = 0;
  deletion_timestamp = deleted;
}

abbrev secret_ref : SecretReference
secret_ref = record { name = "gcp"; namespace = "default" }

abbrev gcp : GcpConfig
gcp = record {
  project = "lab";
  zone = "europe-west4-a";
  region = "europe-west4";
  machine_type = "n1-standard-4";
  disk_size_gb = pos 100;
  disk_type = "pd-ssd";
  network_tags = [];
  service_account = "";
}

abbrev pub template : InstanceTemplate
template = record {
  meta = meta_of "gpu" [] none;
  spec = record {
    vm_image = "ubuntu";
    gpu = none;
    gcp = gcp;
    startup_script = "apt update";
    preemptible = none;
  };
}

abbrev status_of : String → String → ProvisionedInstanceStatus
status_of name state = record {
  instance_id = "";
  instance_name = name;
  internal_ip = "";
  external_ip = "";
  state = state;
  node_name = "";
  joined_cluster = false;
  creation_time = none;
  preemption_notice = false;
}

-- The object of a VM: its own name, the VM's name, its state, its labels and its deletion time.
abbrev pub instance_of : String → String → String → Labels → Option ℕ → ProvisionedInstance
instance_of name vm state labels deleted = record {
  meta = meta_of name labels deleted;
  spec = record {
    instance_template_name = "gpu";
    instance_template_namespace = "";
    spot_instance_job_ref = none;
    gcp_credentials_secret_ref = secret_ref;
  };
  status = status_of vm state;
}

abbrev pub vm_of : String → String → Instance
vm_of name status = record {
  id = 7;
  name = name;
  status = status;
  machine_type = "";
  scheduling = none;
  disks = [];
  network_interfaces = [];
  guest_accelerators = [];
  metadata = none;
  tags = none;
  service_accounts = [];
}

abbrev pod_template : PodTemplate
pod_template = record { labels = []; annotations = []; node_name = ""; containers = [] }

abbrev pub job_spec : JobSpec
job_spec = record {
  parallelism = none;
  completions = none;
  active_deadline_seconds = none;
  backoff_limit = none;
  ttl_seconds_after_finished = none;
  completion_mode = none;
  suspend = none;
  pod_failure_policy = none;
  selector = none;
  template = pod_template;
}

-- A training job of three replicas.
abbrev pub training : SpotInstanceJob
training = record {
  meta = meta_of "bert" [] none;
  spec = record {
    replicas = some (pos 3);
    job_template = job_spec;
    checkpoint_config = record {
      checkpoint_image_repo = "registry/bert";
      checkpoint_interval = pos 60_000_000_000;
      checkpoint_repo_credential_ref = none;
      checkpoint_storage = none;
    };
    instance_template_ref = "gpu";
    gcp_credentials_secret_ref = secret_ref;
  };
  status = record {
    active_replicas = pos 0;
    last_checkpoint_time = none;
    last_checkpoint_image = "";
    job_statuses = [];
  };
}

abbrev pub secret : Secret
secret = record {
  meta = meta_of "gcp" [] none;
  data_entries =
      ("credentials.json", "{}")
      ∷ ("token", "abc.def")
      ∷ ("ca-cert-hash", "sha256:1")
      ∷ ("control-plane-endpoint", "10.0.0.1:6443")
      ∷ [];
}

abbrev pub node : Node
node = record { meta = meta_of "vm-0" [] none; conditions = [] }

-- A job of the training job that runs: its name and its replica label.
abbrev pub job_of : String → String → Job
job_of name replica = record {
  meta = meta_of name (replica_of training replica) none;
  spec = job_spec;
  active = pos 1;
  succeeded = pos 0;
}
