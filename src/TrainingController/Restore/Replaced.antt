-- ===== src/TrainingController/Restore/Replaced.antt =====
-- `updateJobWithCheckpoint`: what one call may write.
use spot_instance_training_o.Base.{
  ◌≡◌, refl, ◌⊎◌, inl, inr, true, String, none, some, List, [], ◌∷◌, map, decimal_ℤ, Bool-cases,
}
use spot_instance_training_o.Api.Meta.{ObjectMeta, Labels, label, set_label, has_label}
use spot_instance_training_o.Api.Training.{SpotInstanceJob}
use spot_instance_training_o.Api.Kube.{Job}
use spot_instance_training_o.Cluster.Errors.{Error, Result, ok, err, Result-cases}
use spot_instance_training_o.Cluster.Events.{Trace, job_created, job_deleted}
use spot_instance_training_o.Cluster.Prog.{World, ◌>>=◌}
use spot_instance_training_o.Cluster.Env.{Env}
use spot_instance_training_o.Cluster.Hoare.{
  Yields, Delivers, Ensures-pure, Ensures-act, Ensures-bind, Ensures-branch, Keeps-then, Keeps-ask,
}
use spot_instance_training_o.TrainingController.Names.{job_replica_label, is_updated}
use spot_instance_training_o.TrainingController.Jobs.Attempts.{OwnerLaw}
use spot_instance_training_o.TrainingController.Restore.{
  Fields, with_image, image_map, registry_url, index_of, restored_job, choose_node, create_restored,
  replace_job, update_job_with_checkpoint,
}

-- The new job is the old one's replica with the checkpoint's images.
pub record Restores (images : Labels) (old new : Job) : Type 0 where
  pub replica : label job_replica_label new.meta.labels ≡ some (decimal_ℤ (index_of old))
  pub marked : is_updated new ≡ true
  pub pod_replica :
      label job_replica_label new.spec.template.labels ≡ some (decimal_ℤ (index_of old))
  pub containers :
      new.spec.template.containers ≡ map (with_image images) old.spec.template.containers
  pub annotations : new.spec.template.annotations ≡ old.spec.template.annotations
  pub fresh_selector : new.spec.selector ≡ none

restored_job-Restores :
    (sj : SpotInstanceJob) (name : String) (old : Job) (images : Labels) (node : String)
    (m' : ObjectMeta)
    → m'.labels ≡ (restored_job sj name old images node).meta.labels
    → m'.annotations ≡ (restored_job sj name old images node).meta.annotations
    → Restores images old (record (restored_job sj name old images node) { meta = m' })
unfolding restored_job label set_label has_label
restored_job-Restores sj name old images node m' kept noted = record {
  marked = rw noted refl;
  replica = rw kept refl;
  pod_replica = refl;
  containers = refl;
  annotations = refl;
  fresh_selector = refl;
}

-- What one call may leave behind: nothing new; the old job's deletion and an error; or that deletion,
-- accepted, and then the creation of its replacement.
abbrev pub Replaces : Labels → Job → Trace → Result (Unit {0}) → Trace → Type 0
Replaces images old before r t =
    (t ≡ before)
    ⊎ ((answer : Result (Unit {0})) × (e : Error) × (t ≡ job_deleted old answer ∷ before)
        × (r ≡ err e))
    ⊎ ((new : Job) × (answer : Result Job) × (t
          ≡ job_created new answer ∷ job_deleted old (ok tt) ∷ before)
        × Restores images old new)

module _ {C S W : Type 0} (env : Env C S W) (law : OwnerLaw env.util) (sj : SpotInstanceJob)
    (name : String) (images : Labels) (job : Job) (before : Trace) where
  create_restored-Replaces :
      (node : String)
      → Delivers
          (λ t. t ≡ job_deleted job (ok tt) ∷ before)
          (create_restored env sj name (restored_job sj name job images node))
          (Replaces images job before)
  unfolding create_restored
  create_restored-Replaces node =
      let fresh = restored_job sj name job images node in
      elim (Result-cases (env.util.set_controller_reference sj.meta fresh.meta)) [
        | inr (e, refused) ↦
            rw (create_restored, refused) (Ensures-pure _ (λ t h. inr (inl (ok tt, _, h, refl))))
        | inl (m', owned) ↦
            rw (create_restored, owned)
              (Ensures-bind
                {Q = λ a t.
                  (new : Job) × (answer : Result Job) × (t
                    ≡ job_created new answer ∷ job_deleted job (ok tt) ∷ before)
                  × Restores images job new}
                (Ensures-act _ _ (λ a t h. (
                  _,
                  a,
                  rw h refl,
                  restored_job-Restores sj name job images node m'
                      (law.labels sj.meta fresh.meta m' owned)
                      (law.annotations sj.meta fresh.meta m' owned),
                )))
                elim [
                  | ok made ↦ Ensures-pure _ (λ t h. inr (inr h))
                  | err e ↦
                      Ensures-branch
                        (λ _. Keeps-then (Keeps-ask _) (λ _. Ensures-pure _ (λ t h. inr (inr h))))
                        (λ _. Ensures-pure _ (λ t h. inr (inr h)))
                ])
      ]

  replace_job-Replaces :
      Delivers (λ t. t ≡ before) (replace_job env sj name images job) (Replaces images job before)
  unfolding replace_job
  replace_job-Replaces =
      Ensures-bind {Q = λ a t. t ≡ job_deleted job a ∷ before}
        (Ensures-act _ _ (λ a t h. rw h refl))
        elim [
          | err e ↦ Ensures-pure _ (λ t h. inr (inl (err e, _, h, refl)))
          | ok _ ↦ Keeps-then (Keeps-ask _) (λ instances.
              elim (Result-cases (choose_node (index_of job) instances)) [
                | inr (e, none_ready) ↦
                    rw none_ready (Ensures-pure _ (λ t h. inr (inl (ok tt, e, h, refl))))
                | inl (node, chosen) ↦ rw chosen (create_restored-Replaces node)
              ])
        ]

-- If setting the owner reference leaves labels and annotations alone and the job `old` is found under the name, the
-- call returns. It writes nothing; or it asks for the deletion of `old` and returns an error; or it asks
-- for that deletion, which is accepted, and then for one new job: of the replica of `old`, in the labels
-- of the job and of its pods, with the pod annotations of `old`, no selector, and its containers, where
-- each that the checkpoint names has the checkpoint's image in the registry of the repository. The new
-- job is marked as updated.
pub update_job_with_checkpoint-Replaces :
    {C S W : Type 0} (env : Env C S W) (sj : SpotInstanceJob) (name : String)
    (containers : List Fields) (w : World W) (old : Job) (s : W)
    → OwnerLaw env.util
    → env.client.get_job sj.meta.namespace name w.state ≡ (ok old, s)
    → Yields (update_job_with_checkpoint env sj name containers w) (
        Replaces
          (image_map (registry_url sj.spec.checkpoint_config.checkpoint_image_repo) containers [])
          old
          w.trace)
unfolding update_job_with_checkpoint ◌>>=◌
update_job_with_checkpoint-Replaces env sj name containers w old s law found =
    elim (Bool-cases (is_updated old)) [
      | inl marked ↦ rw (found, marked) (inl refl)
      | inr fresh ↦
          rw (found, fresh)
            ((replace_job-Replaces env law sj name _ old w.trace).at (record w { state = s }) refl)
    ]
