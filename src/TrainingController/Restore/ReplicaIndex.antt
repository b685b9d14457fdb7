-- ===== src/TrainingController/Restore/ReplicaIndex.antt =====
-- The replica index in the labels of the objects that the controller makes.
use spot_instance_training_o.Base.{
  ℕ, ◌≡◌, String, some, ℤ, decimal_ℤ, List, IsInt32, parse_int32-decimal_ℤ,
}
use spot_instance_training_o.Api.Meta.{Labels, label}
use spot_instance_training_o.Api.Template.{InstanceTemplate}
use spot_instance_training_o.Api.Instance.{ProvisionedInstance}
use spot_instance_training_o.Api.Training.{SpotInstanceJob}
use spot_instance_training_o.Api.Kube.{Job}
use spot_instance_training_o.Cluster.Errors.{Result}
use spot_instance_training_o.TrainingController.Names.{replica_of, replica_index}
use spot_instance_training_o.TrainingController.Instances.{new_instance}
use spot_instance_training_o.TrainingController.Jobs.{new_job}
use spot_instance_training_o.TrainingController.Restore.{index_of, restored_job}

replica_index-replica_of :
    (sj : SpotInstanceJob) (i : ℤ)
    → IsInt32 i
    → replica_index (replica_of sj (decimal_ℤ i)) ≡ some i
unfolding replica_index label
replica_index-replica_of sj i h = parse_int32-decimal_ℤ i h

-- Each `int32` index that the controller writes into the labels of a new instance, a new job or a job
-- restored in the place of one with that index, in decimal, is the index that it reads from them later,
-- negative ones included.
pub replica_index-made :
    (sj : SpotInstanceJob) (template : InstanceTemplate) (i : ℤ) (now : ℕ) (name node : String)
    (instances : Result (List ProvisionedInstance)) (old : Job) (images : Labels)
    → IsInt32 i
    → index_of old ≡ i
    → (replica_index (new_instance sj template i now).meta.labels ≡ some i)
      × (replica_index (new_job sj name i instances).meta.labels ≡ some i)
      × (replica_index (restored_job sj name old images node).meta.labels ≡ some i)
unfolding new_instance new_job restored_job
replica_index-made sj template i now name node instances old images h same = (
  replica_index-replica_of sj i h,
  replica_index-replica_of sj i h,
  rw same (replica_index-replica_of sj i h),
)
