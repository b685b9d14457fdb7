-- ===== src/TrainingController/Marks.antt =====
-- The place and the label by which an object belongs to a training job.
use spot_instance_training_o.Base.{◌≡◌, some}
use spot_instance_training_o.Api.Meta.{ObjectMeta, label}
use spot_instance_training_o.Api.Training.{SpotInstanceJob}
use spot_instance_training_o.Cluster.Errors.{ok}
use spot_instance_training_o.Cluster.Client.{Util}
use spot_instance_training_o.TrainingController.Names.{spot_instance_job_label}

-- In the namespace of the training job, and labelled with its name.
pub record IsMarked (sj : SpotInstanceJob) (m : ObjectMeta) : Type 0 where
  pub place : m.namespace ≡ sj.meta.namespace
  pub mark : label spot_instance_job_label m.labels ≡ some sj.meta.name

-- Marked so, before it was given the training job as its owner.
pub record IsOwned (u : Util) (sj : SpotInstanceJob) (m : ObjectMeta) : Type 0 where
  pub before : ObjectMeta
  pub marked : IsMarked sj before
  pub owned : u.set_controller_reference sj.meta before ≡ ok m
