-- ===== src/Tests/Replicas.antt =====
-- Replica indices and the preemption notice at concrete objects.
use spot_instance_training_o.Base.{
  parse_int32, pos, ◌≡◌, refl, some, none, List, [], ◌∷◌, any, arith,
}
use spot_instance_training_o.Api.Meta.{label}
use spot_instance_training_o.Api.Instance.{ProvisionedInstance}
use spot_instance_training_o.Api.Kube.{Job}
use spot_instance_training_o.Cluster.Env.{Env}
use spot_instance_training_o.Cluster.Errors.{ok}
use spot_instance_training_o.Cluster.Hoare.{Yields}
use spot_instance_training_o.InstanceController.Reconcile.{reconcile}
use spot_instance_training_o.InstanceController.Notice.{AllNoticed, reconcile-AllNoticed}
use spot_instance_training_o.TrainingController.Names.{replica_of, replica_index}
use spot_instance_training_o.TrainingController.Indices.{is_taken}
use spot_instance_training_o.TrainingController.Instances.{new_instance, taken_indices}
use spot_instance_training_o.TrainingController.Instances.Taken.{holds, is_taken-taken_indices}
use spot_instance_training_o.TrainingController.Jobs.{new_job, reconcile_job_replicas}
use spot_instance_training_o.TrainingController.Jobs.Overflow.{reconcile_job_replicas-overflows}
use spot_instance_training_o.Api.Training.{SpotInstanceJob}
use spot_instance_training_o.TrainingController.Restore.{index_of, restored_job}
use spot_instance_training_o.TrainingController.Restore.ReplicaIndex.{replica_index-made}
use spot_instance_training_o.Tests.Objects.{instance_of, job_of, vm_of, template, training}
use spot_instance_training_o.Tests.Clouds.{env_of, accepting, start, cloud_of-Settling}

abbrev old_job : Job
old_job = job_of "bert-replica-12-7" "12"

index_of_old : index_of old_job ≡ pos 12
unfolding replica_index label parse_int32
index_of_old = refl

replica_index-made_example :
    (replica_index (new_instance training template (pos 12) 7).meta.labels ≡ some (pos 12))
    × (replica_index (new_job training "bert-replica-12-7" (pos 12) (ok [])).meta.labels
        ≡ some (pos 12))
    × (replica_index (restored_job training "bert-replica-12-7" old_job [] "vm-12").meta.labels
        ≡ some (pos 12))
replica_index-made_example =
    replica_index-made training template (pos 12) 7 "bert-replica-12-7" "vm-12" (ok []) old_job []
      (omega arith) index_of_old

-- Replica 0 is preempted, replica 1 runs.
abbrev members : List ProvisionedInstance
members =
    instance_of "bert-gpu-0-7" "bert-gpu-0-7" "TERMINATED" (replica_of training "0") none
    ∷ instance_of "bert-gpu-1-7" "bert-gpu-1-7" "RUNNING" (replica_of training "1") none
    ∷ []

is_taken-taken_indices_example :
    is_taken (pos 1) (taken_indices members) ≡ any (holds (pos 1)) members
is_taken-taken_indices_example = is_taken-taken_indices (pos 1) members

-- An object that records a VM, which is stopping.
abbrev watched : ProvisionedInstance
watched = instance_of "bert-0" "bert-0" "RUNNING" [] none

abbrev watching_env : Env (Unit {0}) (Unit {0}) (Unit {0})
watching_env = env_of watched [] [] (ok (vm_of "bert-0" "STOPPING")) accepting

reconcile-AllNoticed_example :
    Yields (reconcile watching_env "default" "bert-0" start) (λ _ t. AllNoticed t)
reconcile-AllNoticed_example =
    reconcile-AllNoticed watching_env "default" "bert-0" start (cloud_of-Settling _ _) tt

-- More replicas than half of what an `int32` holds.
abbrev huge : SpotInstanceJob
huge = record training { spec = record training.spec { replicas = some (pos 1_500_000_000) } }

reconcile_job_replicas-overflows_example :
    Yields (reconcile_job_replicas watching_env huge start) (λ r t. (r ≡ ok tt) × (t ≡ []))
reconcile_job_replicas-overflows_example =
    reconcile_job_replicas-overflows watching_env huge start 1_500_000_000 [] refl (omega arith)
      (omega arith) (λ s. refl)
