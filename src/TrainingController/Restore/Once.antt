-- ===== src/TrainingController/Restore/Once.antt =====
-- `updateJobWithCheckpoint` over an API server that keeps the jobs.
use mathlib.Core.Path.{subst, sym}
use spot_instance_training_o.Base.{
  ◌≡◌, refl, ap, ◌∙◌, true, false, ◌&&◌, String, Option, none, some, List, [], ◌∷◌, str_eq,
}
use spot_instance_training_o.Api.Meta.{ObjectMeta, Labels, has_label, label}
use spot_instance_training_o.Api.Training.{SpotInstanceJob}
use spot_instance_training_o.Api.Instance.{ProvisionedInstance}
use spot_instance_training_o.Api.Kube.{Job}
use spot_instance_training_o.Cluster.Errors.{Result, ok, err}
use spot_instance_training_o.Cluster.Events.{job_created, job_deleted}
use spot_instance_training_o.Cluster.Prog.{World, Prog, pure, ◌>>=◌}
use spot_instance_training_o.Cluster.Env.{Env}
use spot_instance_training_o.TrainingController.Names.{replica_of, is_updated}
use spot_instance_training_o.TrainingController.Restore.{
  Fields, image_map, registry_url, restored_job, index_of, choose_node, create_restored,
  replace_job, update_job_with_checkpoint,
}
use spot_instance_training_o.Base.{decimal_ℤ}
pub mod Restores

-- Another job than the one of that place and name.
abbrev pub IsOther : String → String → String → String → Type 0
IsOther namespace name namespace' name' = (str_eq namespace' namespace && str_eq name' name) ≡ false

-- The job as the API server keeps it.
pub record IsJobCopy (made job : Job) : Type 0 where
  pub namespace : made.meta.namespace ≡ job.meta.namespace
  pub name : made.meta.name ≡ job.meta.name
  pub labels : made.meta.labels ≡ job.meta.labels
  pub annotations : made.meta.annotations ≡ job.meta.annotations
  pub spec : made.spec ≡ job.spec

-- An API server that keeps the jobs by namespace and name, deletes a job at once and creates one where
-- the name is free, and is used by no one else in the meantime.
pub record JobStore {C S W : Type 0} (env : Env C S W) : Type 0 where
  pub stored : W → String → String → Option Job
  pub finds :
      (namespace name : String) (s : W) (job : Job)
      → stored s namespace name ≡ some job
      → env.client.get_job namespace name s ≡ (ok job, s)
  pub deletes :
      (job : Job) (s : W)
      → (s' : W) × (env.client.delete_job job s ≡ (ok tt, s'))
        × (stored s' job.meta.namespace job.meta.name ≡ none)
        × ((namespace name : String)
            → IsOther job.meta.namespace job.meta.name namespace name
            → stored s' namespace name ≡ stored s namespace name)
  pub creates :
      (job : Job) (s : W)
      → stored s job.meta.namespace job.meta.name ≡ none
      → (made : Job) × (s' : W) × (env.client.create_job job s ≡ (ok made, s'))
        × (stored s' job.meta.namespace job.meta.name ≡ some made)
        × IsJobCopy made job
        × ((namespace name : String)
            → IsOther job.meta.namespace job.meta.name namespace name
            → stored s' namespace name ≡ stored s namespace name)
  pub only_reads :
      (namespace : String) (selector : Labels) (s : W)
      → stored (env.client.list_instances namespace selector s).1 ≡ stored s

module _ {C S W : Type 0} (env : Env C S W) (store : JobStore env) (namespace name : String)
    (s : W) where
  -- What `deletes` says, at a place and a name that are the job's.
  pub deletes-at :
      (job : Job)
      → job.meta.namespace ≡ namespace
      → job.meta.name ≡ name
      → (s' : W) × (env.client.delete_job job s ≡ (ok tt, s'))
        × (store.stored s' namespace name ≡ none)
        × ((namespace' name' : String)
            → IsOther namespace name namespace' name'
            → store.stored s' namespace' name' ≡ store.stored s namespace' name')
  deletes-at job place named = rw (sym place, sym named) (store.deletes job s)

  -- What `creates` says, at a place and a name that are the job's.
  pub creates-at :
      (job : Job)
      → job.meta.namespace ≡ namespace
      → job.meta.name ≡ name
      → store.stored s namespace name ≡ none
      → (made : Job) × (s' : W) × (env.client.create_job job s ≡ (ok made, s'))
        × (store.stored s' namespace name ≡ some made)
        × IsJobCopy made job
        × ((namespace' name' : String)
            → IsOther namespace name namespace' name'
            → store.stored s' namespace' name' ≡ store.stored s namespace' name')
  creates-at job place named = rw (sym place, sym named) (store.creates job s)

-- The images of the checkpoint's containers.
abbrev pub images_of : SpotInstanceJob → List Fields → Labels
images_of sj containers =
    image_map (registry_url sj.spec.checkpoint_config.checkpoint_image_repo) containers []

-- The owner reference is accepted, and changes nothing else.
pub record Accepts {C S W : Type 0} (env : Env C S W) (sj : SpotInstanceJob) (m m' : ObjectMeta)
    : Type 0 where
  pub owned : env.util.set_controller_reference sj.meta m ≡ ok m'
  pub namespace : m'.namespace ≡ m.namespace
  pub name_kept : m'.name ≡ m.name
  pub labels : m'.labels ≡ m.labels
  pub annotations : m'.annotations ≡ m.annotations
