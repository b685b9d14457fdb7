-- ===== src/Tests/Places.antt =====
-- An API server that keeps the jobs, as a function of namespace and name.
use spot_instance_training_o.Base.{
  ◌≡◌, refl, true, ◌&&◌, if◌then◌else◌, String, Option, some, none, ℤ, pos, inl, inr, List, [], ◌∷◌,
  str_eq, eq_refl,
}
use spot_instance_training_o.Api.Meta.{has_label}
use spot_instance_training_o.Api.Instance.{ProvisionedInstance}
use spot_instance_training_o.Api.Kube.{Job, Checkpoint, text, mapping}
use spot_instance_training_o.Cluster.Errors.{Result, ok, err}
use spot_instance_training_o.Cluster.Prog.{World}
use spot_instance_training_o.Cluster.Env.{Env}
use spot_instance_training_o.TrainingController.Names.{replica_of, owned_by}
use spot_instance_training_o.TrainingController.Restore.{
  Fields, image_map, registry_url, restored_job, choose_node, update_job_with_checkpoint,
}
use spot_instance_training_o.TrainingController.Restore.Once.{
  IsOther, IsJobCopy, JobStore, images_of,
}
use spot_instance_training_o.TrainingController.Restore.Once.Restores.{
  update_job_with_checkpoint-Restores,
}
use spot_instance_training_o.TrainingController.Completed.{checkpoint_containers}
use spot_instance_training_o.TrainingController.Latest.{
  Candidate, candidate, recreate_job_from_latest_checkpoint,
}
use spot_instance_training_o.TrainingController.Latest.Newest.{IsNewest}
use spot_instance_training_o.TrainingController.Latest.Restored.{
  recreate_job_from_latest_checkpoint-Restores,
}
use spot_instance_training_o.Tests.Objects.{meta_of, instance_of, job_of, vm_of, training}
use spot_instance_training_o.Tests.Clouds.{env_of, accepting, nothing}

abbrev Places : Type 0
Places = String → String → Option Job

put : String → String → Option Job → Places → Places
put namespace name job s namespace' name' =
    if str_eq namespace' namespace && str_eq name' name then job else s namespace' name'

put-here :
    (namespace name : String) (job : Option Job) (s : Places)
    → put namespace name job s namespace name ≡ job
unfolding put
put-here namespace name job s = rw (eq_refl namespace, eq_refl name) refl

put-there :
    (namespace name : String) (job : Option Job) (s : Places) (namespace' name' : String)
    → IsOther namespace name namespace' name'
    → put namespace name job s namespace' name' ≡ s namespace' name'
unfolding put
put-there namespace name job s namespace' name' other = rw other refl

found : Option Job → Result Job
found none = err nothing
found (some job) = ok job

-- The new VM of replica 0 is ready.
abbrev ready : ProvisionedInstance
ready =
    let pi = instance_of "bert-gpu-0-8" "bert-gpu-0-8" "RUNNING" (replica_of training "0") none in
    record pi { status = record pi.status { joined_cluster = true; node_name = "bert-gpu-0-8" } }

abbrev plain_env : Env (Unit {0}) (Unit {0}) Places
plain_env = env_of ready (ready ∷ []) [] (ok (vm_of "bert-gpu-0-8" "RUNNING")) accepting

checkpoint_at : String → String → Checkpoint
checkpoint_at time image = record {
  meta = meta_of image (owned_by training) none;
  status = some (record {
    phase = some "Completed";
    completion_time = some time;
    containers = some (mapping (("name", text "train") ∷ ("image", text image) ∷ []) ∷ []);
    built_images = none;
  });
}

abbrev older : Checkpoint
older = checkpoint_at "10:00" "bert:6"

abbrev newer : Checkpoint
newer = checkpoint_at "11:00" "bert:7"

seconds_of : String → Option ℤ
seconds_of time = if str_eq time "10:00" then some (pos 36_000) else some (pos 39_600)

abbrev placing_env : Env (Unit {0}) (Unit {0}) Places
placing_env = record plain_env {
  util = record plain_env.util { parse_time = seconds_of };
  client = record plain_env.client {
    get_job = λ namespace name s. (found (s namespace name), s);
    create_job = λ job s. (ok job, put job.meta.namespace job.meta.name (some job) s);
    list_checkpoints = λ namespace labels s. (ok (older ∷ newer ∷ []), s);
    delete_job = λ job s. (ok tt, put job.meta.namespace job.meta.name none s);
  };
}

placing_env-JobStore : JobStore placing_env
unfolding found
placing_env-JobStore = record {
  stored = λ s. s;
  finds = λ namespace name s job stands. rw stands refl;
  deletes = λ job s. (
    put job.meta.namespace job.meta.name none s,
    refl,
    put-here job.meta.namespace job.meta.name none s,
    put-there job.meta.namespace job.meta.name none s,
  );
  creates = λ job s free. (
    job,
    put job.meta.namespace job.meta.name (some job) s,
    refl,
    put-here job.meta.namespace job.meta.name (some job) s,
    record { namespace = refl; name = refl; labels = refl; annotations = refl; spec = refl },
    put-there job.meta.namespace job.meta.name (some job) s,
  );
  only_reads = λ namespace selector s. refl;
}

abbrev stranded : Job
stranded = job_of "bert-replica-0-7" "0"

abbrev before : World Places
before = record { state = λ namespace name. some stranded; trace = [] }

abbrev containers : List Fields
containers = (("name", text "train") ∷ ("image", text "bert:7") ∷ []) ∷ []

update_job_with_checkpoint-Restores_example :
    (made : Job) × (w' : World Places) × (update_job_with_checkpoint placing_env training
        "bert-replica-0-7" containers before
      ≡ some (ok tt, w'))
    × (w'.state "default" "bert-replica-0-7" ≡ some made)
    × IsJobCopy made (
        restored_job training "bert-replica-0-7" stranded
          (image_map (registry_url "registry/bert") containers [])
          "bert-gpu-0-8")
    × ((namespace name' : String)
        → IsOther "default" "bert-replica-0-7" namespace name'
        → w'.state namespace name' ≡ some stranded)
    × (update_job_with_checkpoint placing_env training "bert-replica-0-7" containers w'
        ≡ some (ok tt, w'))
unfolding placing_env-JobStore has_label choose_node
update_job_with_checkpoint-Restores_example =
    update_job_with_checkpoint-Restores placing_env placing_env-JobStore training "bert-replica-0-7"
      containers before stranded "bert-gpu-0-8"
      (restored_job training "bert-replica-0-7" stranded
        (image_map (registry_url "registry/bert") containers []) "bert-gpu-0-8").meta
      refl refl refl refl (λ s. refl)
      (record {
        owned = refl;
        namespace = refl;
        name_kept = refl;
        labels = refl;
        annotations = refl;
      })

recreate_job_from_latest_checkpoint-Restores_example :
    (best : Candidate) × (made : Job) × (w' : World Places) × IsNewest placing_env.util
      (older ∷ newer ∷ [])
      (some best)
    × (recreate_job_from_latest_checkpoint placing_env training "bert-replica-0-7" before
        ≡ some (tt, w'))
    × (w'.state "default" "bert-replica-0-7" ≡ some made)
    × IsJobCopy made (
        restored_job training "bert-replica-0-7" stranded
          (images_of training best.1)
          "bert-gpu-0-8")
    × ((namespace name' : String)
        → IsOther "default" "bert-replica-0-7" namespace name'
        → w'.state namespace name' ≡ some stranded)
    × (recreate_job_from_latest_checkpoint placing_env training "bert-replica-0-7" w'
        ≡ some (tt, w'))
unfolding placing_env-JobStore has_label choose_node candidate checkpoint_at seconds_of
    checkpoint_containers
recreate_job_from_latest_checkpoint-Restores_example =
    recreate_job_from_latest_checkpoint-Restores placing_env placing_env-JobStore training
      "bert-replica-0-7" (older ∷ newer ∷ []) (pos 39_600, containers) before stranded
      "bert-gpu-0-8" (restored_job training "bert-replica-0-7" stranded [] "bert-gpu-0-8").meta
      (λ s. refl) (inr (inl refl)) refl refl refl refl (λ s. refl)
      (record {
        owned = refl;
        namespace = refl;
        name_kept = refl;
        labels = refl;
        annotations = refl;
      })
