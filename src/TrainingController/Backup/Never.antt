-- ===== src/TrainingController/Backup/Never.antt =====
-- `createCheckpointForJob`: a job that the operator has restored is never checkpointed again.
use spot_instance_training_o.Base.{◌≡◌, refl, ap, ◌∙◌, and-false, true, false, String, List, any}
use spot_instance_training_o.Api.Meta.{ObjectMeta, Labels, has_label}
use spot_instance_training_o.Api.Training.{SpotInstanceJob}
use spot_instance_training_o.Api.Kube.{Job, Checkpoint}
use spot_instance_training_o.Cluster.Errors.{Result, ok, err}
use spot_instance_training_o.Cluster.Events.{Trace}
use spot_instance_training_o.Cluster.Prog.{World}
use spot_instance_training_o.Cluster.Env.{Env}
use spot_instance_training_o.Cluster.Hoare.{
  Yields, Delivers, Ensures-pure, Ensures-bind, Ensures-branch, Ensures-ask_of, Ensures-absurd,
  Triple-of, Triple-before,
}
use spot_instance_training_o.TrainingController.Checkpoints.{is_completed}
use spot_instance_training_o.TrainingController.Jobs.Attempts.{OwnerLaw}
use spot_instance_training_o.TrainingController.Restore.{restored_job}
use spot_instance_training_o.TrainingController.Backup.{
  checkpoints_of, is_restored, was_recreated, may_create, create_checkpoint_for_job,
}

-- What the API server answers: a job with the labels with which the restored job was created. Its other
-- fields may be anything, and may change from answer to answer.
abbrev pub Restored : Labels → Result Job → Type 0
Restored labels (err e) = ⊥
Restored labels (ok job) = job.meta.labels ≡ labels

no_restored_from :
    (sj : SpotInstanceJob) (name : String) (old : Job) (images : Labels) (node : String)
    → has_label "restored-from" (restored_job sj name old images node).meta.labels ≡ false
unfolding restored_job has_label
no_restored_from sj name old images node = refl

not_restored :
    (labels : Labels) (job : Job)
    → has_label "restored-from" labels ≡ false
    → job.meta.labels ≡ labels
    → is_restored job ≡ false
not_restored labels job lacks same = and-false _ _ (ap (has_label "restored-from") same ∙ lacks)

module _ {C S W : Type 0} (env : Env C S W) (sj : SpotInstanceJob) (name : String) (labels : Labels)
    (cps : List Checkpoint) (P : Trace → Type 0)
    (asked : (s : W)
      → (env.client.list_checkpoints sj.meta.namespace (checkpoints_of name) s).0 ≡ ok cps)
    (stands : (s : W) → Restored labels (env.client.get_job sj.meta.namespace name s).0)
    (lacks : has_label "restored-from" labels ≡ false) (done : any is_completed cps ≡ true) where
  was_recreated-never : Delivers P (was_recreated env sj name) (λ b t. (b ≡ false) × P t)
  unfolding was_recreated
  was_recreated-never =
      Ensures-bind {Q = λ a t. Restored labels a × P t}
        (Ensures-ask_of (Restored labels) _ stands (λ a t known p. (known, p)))
        elim [
          | err e ↦ Ensures-absurd _ (λ t h. h.0)
          | ok job ↦ Ensures-pure _ (λ t h. (not_restored labels job lacks h.0, h.1))
        ]

  may_create-never : Delivers P (may_create env sj name (ok cps)) (λ b t. (b ≡ false) × P t)
  unfolding may_create
  may_create-never =
      Ensures-branch (λ _. Ensures-pure _ (λ t p. (refl, p)))
        (λ _.
          Ensures-branch (λ _. was_recreated-never) (λ none_done. absurd (cc (done, none_done))))

  create_checkpoint_for_job-Delivers :
      Delivers P (create_checkpoint_for_job env sj name) (λ r t. (r ≡ ok tt) × P t)
  unfolding create_checkpoint_for_job
  create_checkpoint_for_job-Delivers =
      Ensures-bind {Q = λ a t. (a ≡ ok cps) × P t}
        (Ensures-ask_of (λ a. a ≡ ok cps) _ asked (λ a t same p. (same, p)))
        λ a.
          Triple-of (λ t h. h.0)
            (λ same. rw same (
              Triple-before (λ t h. h.1)
                (Ensures-bind may_create-never λ allowed.
                  Triple-of (λ t h. h.0)
                    (λ no.
                      Ensures-branch (λ yes. absurd (cc (no, yes)))
                        (λ _. Ensures-pure _ (λ t h. (refl, h.1)))))))

-- The owner reference of a job that `updateJobWithCheckpoint` restores was set, which keeps name, labels
-- and annotations, and each `Get` of the job of that name answers with a job that has the labels it was
-- created with, whatever its other fields are, which may change; and one of the checkpoints that are
-- listed for its name is completed, in every answer. Then `createCheckpointForJob` returns without an
-- error and writes nothing, whatever else is answered: the label `restored-from` that would let it go
-- on is not among those of the restored job.
pub create_checkpoint_for_job-never_again :
    {C S W : Type 0} (env : Env C S W) (sj : SpotInstanceJob) (name : String) (old : Job)
    (images : Labels) (node : String) (m : ObjectMeta) (cps : List Checkpoint) (w : World W)
    → OwnerLaw env.util
    → env.util.set_controller_reference sj.meta (restored_job sj name old images node).meta ≡ ok m
    → ((s : W) → Restored m.labels (env.client.get_job sj.meta.namespace name s).0)
    → ((s : W) → (env.client.list_checkpoints sj.meta.namespace (checkpoints_of name) s).0 ≡ ok cps)
    → any is_completed cps ≡ true
    → Yields (create_checkpoint_for_job env sj name w) (λ r t. (r ≡ ok tt) × (t ≡ w.trace))
create_checkpoint_for_job-never_again env sj name old images node m cps w law owned stands asked
      done =
    (create_checkpoint_for_job-Delivers env sj name m.labels cps (λ t. t ≡ w.trace) asked stands
        (ap (has_label "restored-from") (law.labels sj.meta _ m owned)
          ∙ no_restored_from sj name old images node)
        done).at
      w refl
