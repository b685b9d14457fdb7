-- ===== src/Api/Training.antt =====
-- api/v1alpha1/spotinstancejob_types.go: a training job kept alive on spot VMs.
use spot_instance_training_o.Base.{ℕ, String, Option, List, ℤ}
use spot_instance_training_o.Api.Meta.{ObjectMeta, SecretReference}
use spot_instance_training_o.Api.Kube.{JobSpec}

pub record CheckpointStorageConfig : Type 0 where
  pub type : String
  pub bucket : String
  pub path_prefix : String

-- The interval is in nanoseconds.
pub record CheckpointConfig : Type 0 where
  pub checkpoint_image_repo : String
  pub checkpoint_interval : ℤ
  pub checkpoint_repo_credential_ref : Option SecretReference
  pub checkpoint_storage : Option CheckpointStorageConfig

-- Of the job template its `Spec` alone is read.
pub record SpotInstanceJobSpec : Type 0 where
  pub replicas : Option ℤ
  pub job_template : JobSpec
  pub checkpoint_config : CheckpointConfig
  pub instance_template_ref : String
  pub gcp_credentials_secret_ref : SecretReference

pub record JobReplicaStatus : Type 0 where
  pub name : String
  pub node_name : String
  pub phase : String
  pub last_checkpoint_image : String

pub record SpotInstanceJobStatus : Type 0 where
  pub active_replicas : ℤ
  pub last_checkpoint_time : Option ℕ
  pub last_checkpoint_image : String
  pub job_statuses : List JobReplicaStatus

pub record SpotInstanceJob : Type 0 where
  pub meta : ObjectMeta
  pub spec : SpotInstanceJobSpec
  pub status : SpotInstanceJobStatus
