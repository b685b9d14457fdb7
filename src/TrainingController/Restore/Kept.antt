-- ===== src/TrainingController/Restore/Kept.antt =====
-- `updateJobWithCheckpoint`: what it keeps, if deleting and creating the job does.
use spot_instance_training_o.Base.{inl, inr, ◌≡◌, refl, Bool, true, String, List, ◌∷◌}
use spot_instance_training_o.Api.Meta.{Labels, label}
use spot_instance_training_o.Api.Training.{SpotInstanceJob}
use spot_instance_training_o.Api.Kube.{Job}
use spot_instance_training_o.Cluster.Errors.{Result, ok, err, Result-cases}
use spot_instance_training_o.Cluster.Events.{Trace, job_created, job_deleted}
use spot_instance_training_o.Cluster.Env.{Env}
use spot_instance_training_o.Cluster.Client.{Client, Util}
use spot_instance_training_o.Cluster.Hoare.{
  Preserves, Ensures-pure, Ensures-act, Ensures-ask_of, Ensures-bind, Ensures-branch, Keeps-then,
  Keeps-ask, Keeps-pure, Triple-of, Triple-before,
}
use spot_instance_training_o.TrainingController.Jobs.Attempts.{OwnerLaw}
use spot_instance_training_o.TrainingController.Restore.{
  Fields, restored_job, index_of, choose_node, create_restored, replace_job,
  update_job_with_checkpoint,
}
use spot_instance_training_o.TrainingController.Marks.{IsMarked, IsOwned}

-- `Get` answers with the object of the name that it was asked for.
pub record GetLaw {W : Type 0} (client : Client W) : Type 0 where
  pub name :
      (namespace name : String) (s : W) (job : Job)
      → (client.get_job namespace name s).0 ≡ ok job
      → job.meta.name ≡ name

-- What each deletion and creation of a job whose name passes the test keeps; a job that is created
-- belongs to the training job.
pub record JobRules (u : Util) (sj : SpotInstanceJob) (φ : String → Bool) (P : Trace → Type 0)
    : Type 0 where
  pub deleted :
      (job : Job) (a : Result (Unit {0})) (t : Trace)
      → φ job.meta.name ≡ true
      → P t
      → P (job_deleted job a ∷ t)
  pub created :
      (job : Job) (a : Result Job) (t : Trace)
      → φ job.meta.name ≡ true
      → IsOwned u sj job.meta
      → P t
      → P (job_created job a ∷ t)

abbrev Named : String → Result Job → Type 0
Named name a = (job : Job) → a ≡ ok job → job.meta.name ≡ name

name-restored_job :
    (sj : SpotInstanceJob) (name : String) (old : Job) (images : Labels) (node : String)
    → (restored_job sj name old images node).meta.name ≡ name
unfolding restored_job
name-restored_job sj name old images node = refl

restored_job-IsMarked :
    (sj : SpotInstanceJob) (name : String) (old : Job) (images : Labels) (node : String)
    → IsMarked sj (restored_job sj name old images node).meta
unfolding restored_job label
restored_job-IsMarked sj name old images node = record { place = refl; mark = refl }

module _ {C S W : Type 0} (env : Env C S W) (gets : GetLaw env.client) (law : OwnerLaw env.util)
    (sj : SpotInstanceJob) (φ : String → Bool) (P : Trace → Type 0)
    (rules : JobRules env.util sj φ P) where
  create_restored-Keeps :
      (name : String) (old : Job) (images : Labels) (node : String)
      → φ name ≡ true
      → Preserves ⊥ P (create_restored env sj name (restored_job sj name old images node))
  unfolding create_restored
  create_restored-Keeps name old images node chosen =
      let fresh = restored_job sj name old images node in
      elim (Result-cases (env.util.set_controller_reference sj.meta fresh.meta)) [
        | inr (e, refused) ↦ rw (create_restored, refused) (Keeps-pure _)
        | inl (m', owned) ↦
            rw (create_restored, owned)
              (Ensures-bind {Q = λ _. P}
                (Ensures-act _ _ (λ a t h.
                  rules.created _ a t
                    (rw
                      (
                        law.name sj.meta fresh.meta m' owned,
                        name-restored_job sj name old images node,
                      )
                      chosen)
                    (record {
                      before = fresh.meta;
                      marked = restored_job-IsMarked sj name old images node;
                      owned = owned;
                    })
                    h))
                elim [
                  | ok made ↦ Keeps-pure _
                  | err e ↦
                      Ensures-branch (λ _. Keeps-then (Keeps-ask _) (λ _. Keeps-pure _))
                        (λ _. Keeps-pure _)
                ])
      ]

  replace_job-Keeps :
      (name : String) (images : Labels) (job : Job)
      → φ name ≡ true
      → job.meta.name ≡ name
      → Preserves ⊥ P (replace_job env sj name images job)
  unfolding replace_job
  replace_job-Keeps name images job chosen named =
      Ensures-bind {Q = λ _. P}
        (Ensures-act _ _ (λ a t h. rules.deleted job a t (rw named chosen) h))
        elim [
          | err e ↦ Keeps-pure _
          | ok _ ↦ Keeps-then (Keeps-ask _) (λ instances.
              elim (Result-cases (choose_node (index_of job) instances)) [
                | inr (e, none_ready) ↦ rw none_ready (Keeps-pure _)
                | inl (node, ready) ↦ rw ready (create_restored-Keeps name job images node chosen)
              ])
        ]

  pub update_job_with_checkpoint-Keeps :
      (name : String) (containers : List Fields)
      → φ name ≡ true
      → Preserves ⊥ P (update_job_with_checkpoint env sj name containers)
  unfolding update_job_with_checkpoint
  update_job_with_checkpoint-Keeps name containers chosen =
      Ensures-bind {Q = λ a t. Named name a × P t}
        (Ensures-ask_of (Named name) _ (λ s job found. gets.name sj.meta.namespace name s job found)
          (λ a t named h. (named, h)))
        elim [
          | err e ↦ Ensures-pure _ (λ t h. h.1)
          | ok job ↦
              Triple-of (λ t h. h.0)
                (λ named.
                  Triple-before (λ t h. h.1)
                    (Ensures-branch (λ _. Keeps-pure _)
                      (λ _. replace_job-Keeps name _ job chosen (named job refl))))
        ]
