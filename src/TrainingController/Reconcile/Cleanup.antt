-- ===== src/TrainingController/Reconcile/Cleanup.antt =====
-- What `updateStatus` and the deletion of a training job keep, if each kind of write does.
use spot_instance_training_o.Base.{List, [], ◌∷◌}
use spot_instance_training_o.Api.Instance.{ProvisionedInstance}
use spot_instance_training_o.Api.Training.{SpotInstanceJob}
use spot_instance_training_o.Api.Kube.{Checkpoint}
use spot_instance_training_o.Cluster.Errors.{Result, ok, err}
use spot_instance_training_o.Cluster.Events.{Trace}
use spot_instance_training_o.Cluster.Env.{Env}
use spot_instance_training_o.Cluster.Hoare.{
  Preserves, Ensures-branch, Keeps-then, Keeps-ask, Keeps-pure, Keeps-act,
}
use spot_instance_training_o.TrainingController.Status.{
  update_status, delete_checkpoints, clean_checkpoints, delete_instances, clean_instances, release,
  handle_deletion,
}
use spot_instance_training_o.TrainingController.Reconcile.Replicas.{TrainingRules}

module _ {C S W : Type 0} (env : Env C S W) {Z : Type 0} {Q : SpotInstanceJob → Type 0}
    (P : Trace → Type 0) (rules : TrainingRules env.util Q P) where
  pub update_status-Keeps : (sj : SpotInstanceJob) → Preserves Z P (update_status env sj)
  unfolding update_status
  update_status-Keeps sj =
      Keeps-then (Keeps-ask _)
        elim [ err e ↦ Keeps-pure _ | ok jobs ↦ Keeps-act _ _ (λ a t p. rules.status _ a t p) ]

  delete_checkpoints-Keeps : (cps : List Checkpoint) → Preserves Z P (delete_checkpoints env cps)
  unfolding delete_checkpoints
  delete_checkpoints-Keeps [] = Keeps-pure _
  delete_checkpoints-Keeps (cp ∷ cps) =
      Keeps-then (Keeps-act _ _ (λ a t p. rules.checkpoint_gone cp a t p))
        (λ _. delete_checkpoints-Keeps cps)

  clean_checkpoints-Keeps :
      (listed : Result (List Checkpoint)) → Preserves Z P (clean_checkpoints env listed)
  unfolding clean_checkpoints
  clean_checkpoints-Keeps (err e) = Keeps-pure _
  clean_checkpoints-Keeps (ok cps) = delete_checkpoints-Keeps cps

  delete_instances-Keeps :
      (items : List ProvisionedInstance) → Preserves Z P (delete_instances env items)
  unfolding delete_instances
  delete_instances-Keeps [] = Keeps-pure _
  delete_instances-Keeps (pi ∷ items) =
      Keeps-then (Keeps-act _ _ (λ a t p. rules.instance_gone pi a t p))
        (λ _. delete_instances-Keeps items)

  clean_instances-Keeps :
      (sj : SpotInstanceJob) (listed : Result (List ProvisionedInstance))
      → Preserves Z P (clean_instances env sj listed)
  unfolding clean_instances release
  clean_instances-Keeps sj (err e) = Keeps-pure _
  clean_instances-Keeps sj (ok items) =
      Keeps-then (delete_instances-Keeps items)
        (λ _. Keeps-then (Keeps-act _ _ (λ a t p. rules.training _ a t p)) (λ r. Keeps-pure _))

  pub handle_deletion-Keeps : (sj : SpotInstanceJob) → Preserves Z P (handle_deletion env sj)
  unfolding handle_deletion
  handle_deletion-Keeps sj =
      Ensures-branch
        (λ _. Keeps-then (Keeps-ask _) (λ cps.
          Keeps-then (clean_checkpoints-Keeps cps)
            (λ _. Keeps-then (Keeps-ask _) (clean_instances-Keeps sj))))
        (λ _. Keeps-pure _)
