-- ===== src/Api/Compute.antt =====
-- The Compute Engine messages that internal/gcp builds and reads (`compute.Instance` and its parts).
use spot_instance_training_o.Base.{ℕ, Bool, String, Option, List, ℤ}

pub record Scheduling : Type 0 where
  pub preemptible : Bool
  pub automatic_restart : Option Bool
  pub on_host_maintenance : String

pub record AttachedDisk : Type 0 where
  pub boot : Bool
  pub auto_delete : Bool
  pub source_image : String
  pub disk_size_gb : ℤ
  pub disk_type : String

pub record AccessConfig : Type 0 where
  pub name : String
  pub type : String
  pub nat_ip : String

pub record NetworkInterface : Type 0 where
  pub network_ip : String
  pub access_configs : List AccessConfig

pub record AcceleratorConfig : Type 0 where
  pub accelerator_count : ℤ
  pub accelerator_type : String

pub record MetadataItem : Type 0 where
  pub key : String
  pub value : String

pub record ServiceAccount : Type 0 where
  pub email : String
  pub scopes : List String

-- `compute.Instance`; a nil pointer is `none`, a nil slice is the empty list.
pub record Instance : Type 0 where
  pub id : ℕ
  pub name : String
  pub status : String
  pub machine_type : String
  pub scheduling : Option Scheduling
  pub disks : List AttachedDisk
  pub network_interfaces : List NetworkInterface
  pub guest_accelerators : List AcceleratorConfig
  pub metadata : Option (List MetadataItem)
  pub tags : Option (List String)
  pub service_accounts : List ServiceAccount

-- A zone operation: its name, its status and the text of its error.
pub record Operation : Type 0 where
  pub name : String
  pub status : String
  pub error : Option String
