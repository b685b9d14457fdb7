-- ===== src/Tests/Restores.antt =====
-- The replacement of a job by one with the images of a checkpoint, at concrete objects.
use spot_instance_training_o.Base.{not, ◌&&◌}
use spot_instance_training_o.Api.Kube.{Checkpoint, mapping}
use spot_instance_training_o.TrainingController.Completed.{
  checkpoint_containers, is_source, restore_from, process_completed_checkpoints,
}
use spot_instance_training_o.TrainingController.Restore.Kept.{GetLaw}
use spot_instance_training_o.TrainingController.Completed.Chosen.{
  Touches, restore_from-Touches, process_completed_checkpoints-Touches,
}
use spot_instance_training_o.Tests.Objects.{meta_of}
use spot_instance_training_o.Base.{Bool, ◌≡◌, refl, true, false, some, List, [], ◌∷◌}
use spot_instance_training_o.Api.Meta.{has_label}
use spot_instance_training_o.Api.Instance.{ProvisionedInstance}
use spot_instance_training_o.Api.Kube.{Job, text}
use spot_instance_training_o.Cluster.Errors.{Error, Result, ok, err}
use spot_instance_training_o.Cluster.Events.{job_deleted}
use spot_instance_training_o.Cluster.Env.{Env}
use spot_instance_training_o.Cluster.Hoare.{Yields}
use spot_instance_training_o.TrainingController.Names.{replica_of, is_in}
use spot_instance_training_o.TrainingController.Restore.{
  Fields, image_map, registry_url, update_job_with_checkpoint,
}
use spot_instance_training_o.TrainingController.Restore.Replaced.{
  Replaces, update_job_with_checkpoint-Replaces,
}
use spot_instance_training_o.TrainingController.Restore.Lost.{update_job_with_checkpoint-loses}
use spot_instance_training_o.Tests.Objects.{instance_of, job_of, vm_of, training}
use spot_instance_training_o.Tests.Clouds.{
  in_order, in_order-RangeLaw, env_of, accepting, nothing, util-OwnerLaw,
}
use spot_instance_training_o.Base.{none}
use spot_instance_training_o.Cluster.Prog.{World}

-- The VM of replica 0 is preempted.
abbrev gone : ProvisionedInstance
gone = instance_of "bert-gpu-0-7" "bert-gpu-0-7" "TERMINATED" (replica_of training "0") none

abbrev stranded : Job
stranded = job_of "bert-replica-0-7" "0"

-- The surroundings are whether the job is still there.
abbrev base_env : Env (Unit {0}) (Unit {0}) Bool
base_env = env_of gone (gone ∷ []) [] (ok (vm_of "bert-gpu-0-7" "TERMINATED")) accepting

abbrev look : Bool → Result Job
look true = ok stranded
look false = err nothing

abbrev stranded_env : Env (Unit {0}) (Unit {0}) Bool
stranded_env = record base_env {
  client = record base_env.client {
    get_job = λ namespace name s. (look s, s);
    delete_job = λ job s. (ok tt, false);
  };
}

abbrev before_delete : World Bool
before_delete = record { state = true; trace = [] }

abbrev after_delete : World Bool
after_delete = record { state = false; trace = [] }

abbrev containers : List Fields
containers = (("name", text "train") ∷ ("image", text "bert:7") ∷ []) ∷ []

update_job_with_checkpoint-Replaces_example :
    Yields
      (update_job_with_checkpoint stranded_env training "bert-replica-0-7" containers before_delete)
      (Replaces (image_map (registry_url "registry/bert") containers []) stranded [])
update_job_with_checkpoint-Replaces_example =
    update_job_with_checkpoint-Replaces stranded_env training "bert-replica-0-7" containers
      before_delete stranded true util-OwnerLaw refl

update_job_with_checkpoint-loses_example :
    Yields
      (update_job_with_checkpoint stranded_env training "bert-replica-0-7" containers before_delete)
      (λ r t. (t ≡ job_deleted stranded (ok tt) ∷ []) × ((e : Error) × (r ≡ err e)))
    × (update_job_with_checkpoint stranded_env training "bert-replica-0-7" containers after_delete
        ≡ some (ok tt, after_delete))
unfolding has_label
update_job_with_checkpoint-loses_example =
    update_job_with_checkpoint-loses stranded_env training "bert-replica-0-7" containers
      before_delete stranded true (gone ∷ []) after_delete nothing false refl refl (λ s. refl)
      (λ s. refl) refl refl refl

-- A completed checkpoint of another replica's job.
abbrev checkpoint : Checkpoint
checkpoint = record {
  meta = meta_of "cp-1" (("training.dcnlab.com/job", "bert-replica-1-7") ∷ []) none;
  status = some (record {
    phase = some "Completed";
    completion_time = none;
    containers = some (mapping (("name", text "train") ∷ ("image", text "bert:7") ∷ []) ∷ []);
    built_images = none;
  });
}

-- Each job that is asked for is there.
abbrev full_env : Env (Unit {0}) (Unit {0}) Bool
full_env = record base_env {
  client = record base_env.client {
    get_job = λ namespace name s. (ok (job_of name "0"), s);
    list_checkpoints = λ namespace labels s. (ok (checkpoint ∷ []), s);
  };
}

full_env-GetLaw : GetLaw full_env.client
full_env-GetLaw = record { name = λ namespace name s job h. cc }

restore_from-Touches_example :
    Yields
      (restore_from full_env training in_order
        ("bert-replica-0-7" ∷ "bert-replica-1-7" ∷ [])
        checkpoint
        (checkpoint_containers checkpoint.status)
        []
        before_delete)
      (λ _ t.
        Touches
          (λ n.
            is_in ("bert-replica-0-7" ∷ "bert-replica-1-7" ∷ []) n && not (is_source checkpoint n))
          t)
restore_from-Touches_example =
    restore_from-Touches full_env training in_order ("bert-replica-0-7" ∷ "bert-replica-1-7" ∷ [])
      [] checkpoint before_delete full_env-GetLaw util-OwnerLaw in_order-RangeLaw tt

process_completed_checkpoints-Touches_example :
    Yields
      (process_completed_checkpoints full_env training in_order
        ("bert-replica-0-7" ∷ [])
        before_delete)
      (λ _ t. Touches (is_in ("bert-replica-0-7" ∷ [])) t)
process_completed_checkpoints-Touches_example =
    process_completed_checkpoints-Touches full_env training in_order ("bert-replica-0-7" ∷ [])
      before_delete full_env-GetLaw util-OwnerLaw in_order-RangeLaw tt
