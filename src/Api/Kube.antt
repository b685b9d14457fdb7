-- ===== src/Api/Kube.antt =====
-- The fields that the controllers read and write of the built-in objects (batch/v1 and core/v1) and
-- of the CheckpointBackup objects, which the operator handles as unstructured content.
use spot_instance_training_o.Base.{Bool, String, Option, List, ℤ}
use spot_instance_training_o.Api.Meta.{ObjectMeta, Labels, SecretReference}

pub record Container : Type 0 where
  pub name : String
  pub image : String

-- `corev1.PodTemplateSpec`: its labels and annotations, the node it is bound to, its containers.
pub record PodTemplate : Type 0 where
  pub labels : Labels
  pub annotations : Labels
  pub node_name : String
  pub containers : List Container

-- `batchv1.JobSpec`: the settings that are copied one by one, and the pod template.
pub record JobSpec : Type 0 where
  pub parallelism : Option ℤ
  pub completions : Option ℤ
  pub active_deadline_seconds : Option ℤ
  pub backoff_limit : Option ℤ
  pub ttl_seconds_after_finished : Option ℤ
  pub completion_mode : Option String
  pub suspend : Option Bool
  pub pod_failure_policy : Option String
  pub selector : Option Labels
  pub template : PodTemplate

pub record Job : Type 0 where
  pub meta : ObjectMeta
  pub spec : JobSpec
  pub active : ℤ
  pub succeeded : ℤ

pub record Pod : Type 0 where
  pub meta : ObjectMeta
  pub node_name : String
  pub containers : List Container

-- `corev1.NodeCondition`
pub record NodeCondition : Type 0 where
  pub type : String
  pub status : String

pub record Node : Type 0 where
  pub meta : ObjectMeta
  pub conditions : List NodeCondition

pub record Secret : Type 0 where
  pub meta : ObjectMeta
  pub data_entries : Labels

-- A value inside unstructured content: a text, or anything else.
pub data Value : Type 0 where
  text : String → Value
  other : Value

-- An entry of an unstructured list: a map, or what a cast to a map refuses.
pub data Entry : Type 0 where
  mapping : List (String × Value) → Entry
  scalar : Entry

-- The `status` map of a CheckpointBackup; `none` is a key that is missing or of another type.
pub record CheckpointStatus : Type 0 where
  pub phase : Option String
  pub completion_time : Option String
  pub containers : Option (List Entry)
  pub built_images : Option (List Entry)

pub record Checkpoint : Type 0 where
  pub meta : ObjectMeta
  pub status : Option CheckpointStatus

-- The `spec` of a CheckpointBackup that the operator creates: `podRef`, `resourceRef`, `registry` and
-- the images to make.
pub record CheckpointSpec : Type 0 where
  pub schedule : String
  pub stop_pod : Bool
  pub pod_name : String
  pub pod_namespace : String
  pub resource_api_version : String
  pub resource_kind : String
  pub resource_name : String
  pub resource_namespace : String
  pub registry_url : String
  pub registry_repository : String
  pub registry_secret_ref : Option SecretReference
  pub containers : List Container

pub record NewCheckpoint : Type 0 where
  pub meta : ObjectMeta
  pub spec : CheckpointSpec
