-- ===== src/Api/Instance.antt =====
-- api/v1alpha1/provisionedinstance_types.go: one VM of a training job.
use spot_instance_training_o.Base.{ℕ, Bool, String, Option}
use spot_instance_training_o.Api.Meta.{ObjectMeta, OwnerReference, SecretReference}

pub record ProvisionedInstanceSpec : Type 0 where
  pub instance_template_name : String
  pub instance_template_namespace : String
  pub spot_instance_job_ref : Option OwnerReference
  pub gcp_credentials_secret_ref : SecretReference

-- `Conditions` is left out: no code reads or writes it.
pub record ProvisionedInstanceStatus : Type 0 where
  pub instance_id : String
  pub instance_name : String
  pub internal_ip : String
  pub external_ip : String
  pub state : String
  pub node_name : String
  pub joined_cluster : Bool
  pub creation_time : Option ℕ
  pub preemption_notice : Bool

pub record ProvisionedInstance : Type 0 where
  pub meta : ObjectMeta
  pub spec : ProvisionedInstanceSpec
  pub status : ProvisionedInstanceStatus
