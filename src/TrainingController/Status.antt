-- ===== src/TrainingController/Status.antt =====
-- spotinstancejob_status.go: the number of active replicas, and the deletion of a training job.
pub mod Cleanup
use spot_instance_training_o.Base.{Bool, List, [], ◌∷◌, pos, ltb_ℤ, to_int32, count}
use spot_instance_training_o.Api.Instance.{ProvisionedInstance}
use spot_instance_training_o.Api.Training.{SpotInstanceJob}
use spot_instance_training_o.Api.Kube.{Job, Checkpoint}
use spot_instance_training_o.Cluster.Errors.{Result, ok, err, Outcome, finished, failed}
use spot_instance_training_o.Cluster.Events.{
  training_status_updated, training_updated, checkpoint_deleted, instance_deleted,
}
use spot_instance_training_o.Cluster.Prog.{Prog, pure, branch, ◌>>=◌, ◌>>◌, ask, act}
use spot_instance_training_o.Cluster.Env.{Env}
use spot_instance_training_o.TrainingController.Names.{owned_by, spot_instance_job_finalizer}

-- `job.Status.Active > 0`
abbrev pub is_running : Job → Bool
is_running job = ltb_ℤ (pos 0) job.active

module _ {C S W : Type 0} (env : Env C S W) where
  unfoldable pub update_status : SpotInstanceJob → Prog W (Result SpotInstanceJob)
  update_status sj = do
    listed ← ask (env.client.list_jobs sj.meta.namespace (owned_by sj))
    elim listed [
      | err e ↦ pure (err e)
      | ok jobs ↦ do
        let status = record sj.status { active_replicas = to_int32 (count is_running jobs) }
        let sj' = record sj { status = status }
        act (env.client.update_training_status sj') (training_status_updated sj')
    ]

  -- A checkpoint that cannot be deleted is logged and passed over.
  unfoldable pub delete_checkpoints : List Checkpoint → Prog W (Unit {0})
  delete_checkpoints [] = pure tt
  delete_checkpoints (cp ∷ cps) = do
    act (env.client.delete_checkpoint cp) (checkpoint_deleted cp)
    delete_checkpoints cps

  -- Checkpoints that cannot be listed are logged and passed over.
  unfoldable pub clean_checkpoints : Result (List Checkpoint) → Prog W (Unit {0})
  unfolding delete_checkpoints
  clean_checkpoints (err e) = pure tt
  clean_checkpoints (ok cps) = delete_checkpoints cps

  -- So is an instance that cannot be deleted.
  unfoldable pub delete_instances : List ProvisionedInstance → Prog W (Unit {0})
  delete_instances [] = pure tt
  delete_instances (pi ∷ items) = do
    act (env.client.delete_instance pi) (instance_deleted pi)
    delete_instances items

  abbrev pub released : SpotInstanceJob → SpotInstanceJob
  released sj = record sj { meta = env.util.remove_finalizer sj.meta spot_instance_job_finalizer }

  -- `RemoveFinalizer` and `Update`
  unfoldable pub release : SpotInstanceJob → Prog W Outcome
  release sj = do
    updated ← act (env.client.update_training (released sj)) (training_updated (released sj))
    pure (elim updated [ err e ↦ failed e | ok _ ↦ finished ])

  -- What follows the list of the instances.
  unfoldable pub clean_instances :
      SpotInstanceJob → Result (List ProvisionedInstance) → Prog W Outcome
  clean_instances sj (err e) = pure (failed e)
  clean_instances sj (ok items) = do delete_instances items; release sj

  unfoldable pub handle_deletion : SpotInstanceJob → Prog W Outcome
  handle_deletion sj =
      branch (env.util.contains_finalizer sj.meta spot_instance_job_finalizer)
        (do
          checkpoints ← ask (env.client.list_checkpoints sj.meta.namespace (owned_by sj))
          clean_checkpoints checkpoints
          instances ← ask (env.client.list_instances sj.meta.namespace (owned_by sj))
          clean_instances sj instances)
        (pure finished)
