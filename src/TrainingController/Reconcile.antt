-- ===== src/TrainingController/Reconcile.antt =====
-- spotinstancejob_controller.go, `Reconcile` of a training job. The labels that `createJobReplica`
-- leaves in the map of the job's own template are not carried from call to call: each of its calls
-- writes both anew, and the update of the status sends the status.
pub mod Waits
pub mod Replicas
pub mod Cleanup
pub mod Preempted
pub mod Kept
pub mod Returns
pub mod Watch
pub mod Owned
use spot_instance_training_o.Base.{Bool, true, false, ◌&&◌, String, List, [], ◌∷◌, pos, eq_ℤ}
use spot_instance_training_o.Api.Meta.{is_deleting}
use spot_instance_training_o.Api.Template.{InstanceTemplate}
use spot_instance_training_o.Api.Training.{SpotInstanceJob, JobReplicaStatus}
use spot_instance_training_o.Cluster.Errors.{
  Result, ok, err, Outcome, is_not_found, finished, requeue, failed, failed_after,
}
use spot_instance_training_o.Cluster.Events.{training_updated, training_status_updated}
use spot_instance_training_o.Cluster.Prog.{Prog, pure, branch, ◌>>=◌, ask, act}
use spot_instance_training_o.Cluster.Env.{Env}
use spot_instance_training_o.TrainingController.Names.{spot_instance_job_finalizer}
use spot_instance_training_o.TrainingController.Checkpoints.{has_pending_checkpoints}
use spot_instance_training_o.TrainingController.Instances.{reconcile_provisioned_instances}
use spot_instance_training_o.TrainingController.Jobs.{reconcile_job_replicas}
use spot_instance_training_o.TrainingController.Status.{update_status, handle_deletion}
use spot_instance_training_o.TrainingController.Preemption.{handle_preemption}

abbrev no_statuses : List JobReplicaStatus → Bool
no_statuses [] = true
no_statuses (_ ∷ _) = false

module _ {C S W : Type 0} (env : Env C S W) (range : List String → W → List String × W) where
  abbrev pub with_finalizer : SpotInstanceJob → SpotInstanceJob
  with_finalizer sj = record sj {
    meta = env.util.add_finalizer sj.meta spot_instance_job_finalizer;
  }

  unfoldable pub ensure_finalizer : SpotInstanceJob → Prog W (Result SpotInstanceJob)
  ensure_finalizer sj =
      branch (env.util.contains_finalizer sj.meta spot_instance_job_finalizer) (pure (ok sj)) (
        act (env.client.update_training (with_finalizer sj)) (training_updated (with_finalizer sj)))

  -- A status with no replicas and no jobs is sent as it is; the code sets the replicas to 0 before.
  unfoldable pub ensure_status : SpotInstanceJob → Prog W (Result SpotInstanceJob)
  ensure_status sj =
      branch (eq_ℤ sj.status.active_replicas (pos 0) && no_statuses sj.status.job_statuses)
        (act (env.client.update_training_status sj) (training_status_updated sj)) (pure (ok sj))

  unfoldable pub fetch_instance_template : SpotInstanceJob → Prog W (Result InstanceTemplate)
  fetch_instance_template sj =
      ask (env.client.get_template sj.meta.namespace sj.spec.instance_template_ref)

  -- Preemption is handled where no checkpoint is pending; a failed look is passed over.
  unfoldable pub guard_preemption : SpotInstanceJob → Result Bool → Prog W (Result (Unit {0}))
  guard_preemption sj (err e) = pure (ok tt)
  guard_preemption sj (ok pending) = branch pending (pure (ok tt)) (handle_preemption env range sj)

  -- So are the instances.
  unfoldable pub guard_instances :
      SpotInstanceJob → InstanceTemplate → Result Bool → Prog W (Result (Unit {0}))
  guard_instances sj template (err e) = pure (ok tt)
  guard_instances sj template (ok pending) =
      branch pending (pure (ok tt)) (reconcile_provisioned_instances env sj template)

  -- `pendingCheckpoints` after a look: false where it failed.
  abbrev pub pending_of : Result Bool → Bool
  pending_of (err e) = false
  pending_of (ok b) = b

  unfoldable pub finish : SpotInstanceJob → Bool → Prog W Outcome
  finish sj pending = do
    jobs ← reconcile_job_replicas env sj
    elim jobs [
      | err e ↦ pure (failed e)
      | ok _ ↦ do
        updated ← update_status env sj
        elim updated [
          | err e ↦ pure (failed e)
          | ok _ ↦ branch pending (pure (requeue 30)) (pure (requeue 60))
        ]
    ]

  unfoldable pub reconcile_replicas : SpotInstanceJob → InstanceTemplate → Prog W Outcome
  reconcile_replicas sj template = do
    pending ← has_pending_checkpoints env sj
    handled ← guard_preemption sj pending
    elim handled [
      | err e ↦ pure (failed e)
      | ok _ ↦ do
        still_pending ← has_pending_checkpoints env sj
        reconciled ← guard_instances sj template still_pending
        elim reconciled [ err e ↦ pure (failed e) | ok _ ↦ finish sj (pending_of still_pending) ]
    ]

  unfoldable pub reconcile_ready : SpotInstanceJob → Prog W Outcome
  reconcile_ready sj = do
    fetched ← fetch_instance_template sj
    elim fetched [ err e ↦ pure (failed_after 30 e) | ok template ↦ reconcile_replicas sj template ]

  unfoldable pub reconcile_live : SpotInstanceJob → Prog W Outcome
  reconcile_live sj = do
    marked ← ensure_finalizer sj
    elim marked [
      | err e ↦ pure (failed e)
      | ok sj' ↦ do
        started ← ensure_status sj'
        elim started [ err e ↦ pure (failed e) | ok sj'' ↦ reconcile_ready sj'' ]
    ]

  -- `req` is the namespace and the name.
  unfoldable pub reconcile : String → String → Prog W Outcome
  reconcile namespace name = do
    found ← ask (env.client.get_training namespace name)
    elim found [
      | err e ↦ pure (elim (is_not_found e) [ true ↦ finished | false ↦ failed e ])
      | ok sj ↦ branch (is_deleting sj.meta) (handle_deletion env sj) (reconcile_live sj)
    ]
