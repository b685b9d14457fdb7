-- ===== src/Api/Template.antt =====
-- api/v1alpha1/instancetemplate_types.go: the specification of a VM.
use spot_instance_training_o.Base.{Bool, String, Option, List, ℤ}
use spot_instance_training_o.Api.Meta.{ObjectMeta}

pub record GcpConfig : Type 0 where
  pub project : String
  pub zone : String
  pub region : String
  pub machine_type : String
  pub disk_size_gb : ℤ
  pub disk_type : String
  pub network_tags : List String
  pub service_account : String

pub record GpuConfig : Type 0 where
  pub type : String
  pub count : ℤ

pub record InstanceTemplateSpec : Type 0 where
  pub vm_image : String
  pub gpu : Option GpuConfig
  pub gcp : GcpConfig
  pub startup_script : String
  pub preemptible : Option Bool

-- The status has conditions only, which no code reads.
pub record InstanceTemplate : Type 0 where
  pub meta : ObjectMeta
  pub spec : InstanceTemplateSpec
