-- ===== src/TrainingController/Reconcile/Replicas.antt =====
-- What the creation of instances and jobs keeps, if each kind of write of the training controller does.
use spot_instance_training_o.Base.{
  ◌≡◌, refl, ℕ, zero, suc, String, Option, none, some, List, [], ◌∷◌, ℤ, double32,
}
use spot_instance_training_o.Api.Meta.{label}
use spot_instance_training_o.Api.Template.{InstanceTemplate}
use spot_instance_training_o.Api.Instance.{ProvisionedInstance}
use spot_instance_training_o.Api.Training.{SpotInstanceJob}
use spot_instance_training_o.Api.Kube.{Job, Checkpoint, NewCheckpoint}
use spot_instance_training_o.Cluster.Errors.{Error, Result, ok, err}
use spot_instance_training_o.Cluster.Events.{
  Trace, instance_created, instance_deleted, training_updated, training_status_updated, job_created,
  job_deleted, checkpoint_created, checkpoint_deleted, restore_started,
}
use spot_instance_training_o.Cluster.Prog.{Prog}
use spot_instance_training_o.Cluster.Client.{Util}
use spot_instance_training_o.Cluster.Env.{Env}
use spot_instance_training_o.TrainingController.Marks.{IsMarked, IsOwned}
use spot_instance_training_o.Cluster.Hoare.{
  Keeps, Ensures-stuck, Ensures-branch, Keeps-then, Keeps-ask, Keeps-pure, Keeps-act, Triple-lift,
  Triple-weaken,
}
use spot_instance_training_o.TrainingController.Indices.{skip_taken}
use spot_instance_training_o.TrainingController.Instances.{
  create_missing, must_wait, reconcile_provisioned_instances, new_instance,
}
use spot_instance_training_o.TrainingController.Jobs.{
  has_valid_job, has_job, create_job_replica, create_replicas, fill_replicas, fill_unless_pending,
  reconcile_job_replicas, new_job,
}
use spot_instance_training_o.TrainingController.Jobs.Indexed.{
  job_indices-Indexed, has_pending_checkpoints-Keeps,
}

-- Each kind of write of the training controller keeps the property. What it creates for a training
-- job belongs to it; `Q` is what is known of the training jobs.
pub record TrainingRules (u : Util) (Q : SpotInstanceJob → Type 0) (P : Trace → Type 0)
    : Type 0 where
  pub instance :
      (sj : SpotInstanceJob) (pi : ProvisionedInstance) (a : Result ProvisionedInstance) (t : Trace)
      → Q sj
      → IsOwned u sj pi.meta
      → P t
      → P (instance_created pi a ∷ t)
  pub instance_gone :
      (pi : ProvisionedInstance) (a : Result (Unit {0})) (t : Trace)
      → P t
      → P (instance_deleted pi a ∷ t)
  pub training :
      (sj : SpotInstanceJob) (a : Result SpotInstanceJob) (t : Trace)
      → P t
      → P (training_updated sj a ∷ t)
  pub status :
      (sj : SpotInstanceJob) (a : Result SpotInstanceJob) (t : Trace)
      → P t
      → P (training_status_updated sj a ∷ t)
  pub job :
      (sj : SpotInstanceJob) (j : Job) (a : Result Job) (t : Trace)
      → Q sj
      → IsOwned u sj j.meta
      → P t
      → P (job_created j a ∷ t)
  pub job_gone : (j : Job) (a : Result (Unit {0})) (t : Trace) → P t → P (job_deleted j a ∷ t)
  pub checkpoint :
      (sj : SpotInstanceJob) (cp : NewCheckpoint) (a : Result (Unit {0})) (t : Trace)
      → Q sj
      → IsMarked sj cp.meta
      → P t
      → P (checkpoint_created cp a ∷ t)
  pub checkpoint_gone :
      (cp : Checkpoint) (a : Result (Unit {0})) (t : Trace) → P t → P (checkpoint_deleted cp a ∷ t)
  pub restore :
      (sj : SpotInstanceJob) (name : String) (t : Trace) → P t → P (restore_started sj name ∷ t)

-- Both cases of an answer.
Keeps-option :
    {W A B : Type 0} {P : Trace → Type 0} {n : Prog W B} {f : A → Prog W B} (o : Option A)
    → Keeps P n
    → ((a : A) → Keeps P (f a))
    → Keeps P (elim o [ none ↦ n | some a ↦ f a ])
Keeps-option none h k = h
Keeps-option (some a) h k = k a

Keeps-result :
    {W A B : Type 0} {P : Trace → Type 0} {f : Error → Prog W B} {g : A → Prog W B} (r : Result A)
    → ((e : Error) → Keeps P (f e))
    → ((a : A) → r ≡ ok a → Keeps P (g a))
    → Keeps P (elim r [ err e ↦ f e | ok a ↦ g a ])
Keeps-result (err e) h k = h e
Keeps-result (ok a) h k = k a refl

new_instance-IsMarked :
    (sj : SpotInstanceJob) (template : InstanceTemplate) (i : ℤ) (now : ℕ)
    → IsMarked sj (new_instance sj template i now).meta
unfolding new_instance label
new_instance-IsMarked sj template i now = record { place = refl; mark = refl }

new_job-IsMarked :
    (sj : SpotInstanceJob) (name : String) (i : ℤ) (instances : Result (List ProvisionedInstance))
    → IsMarked sj (new_job sj name i instances).meta
unfolding new_job label
new_job-IsMarked sj name i instances = record { place = refl; mark = refl }

module _ {C S W : Type 0} (env : Env C S W) (Q : SpotInstanceJob → Type 0) (P : Trace → Type 0)
    (rules : TrainingRules env.util Q P) (sj : SpotInstanceJob) (known : Q sj) where
  create_missing-Keeps :
      (template : InstanceTemplate) (desired needed : ℤ) (fuel : ℕ) (index created : ℤ)
      (taken : List ℤ)
      → Keeps P (create_missing env sj template desired needed fuel index created taken)
  unfolding create_missing
  create_missing-Keeps template desired needed zero index created taken = Ensures-stuck
  create_missing-Keeps template desired needed (suc fuel) index created taken =
      Ensures-branch
        (λ _. Keeps-option (skip_taken (double32 desired) taken index) Ensures-stuck (λ i.
          Keeps-then (Keeps-ask _) (λ now.
            Keeps-result
              (env.util.set_controller_reference sj.meta (new_instance sj template i now).meta)
              (λ e. Keeps-pure _)
              (λ m owned.
                Keeps-then
                  (Keeps-act _ _ (λ a t p.
                    rules.instance sj _ a t known
                      (record {
                        before = (new_instance sj template i now).meta;
                        marked = new_instance-IsMarked sj template i now;
                        owned = owned;
                      })
                      p))
                  elim [
                    | err e ↦ create_missing-Keeps template desired needed fuel _ _ _
                    | ok _ ↦ create_missing-Keeps template desired needed fuel _ _ _
                  ]))))
        (λ _. Keeps-pure _)

  pub reconcile_provisioned_instances-Keeps :
      (template : InstanceTemplate) → Keeps P (reconcile_provisioned_instances env sj template)
  unfolding reconcile_provisioned_instances must_wait
  reconcile_provisioned_instances-Keeps template = Keeps-then (Keeps-ask _) elim [
    | err e ↦ Keeps-pure _
    | ok items ↦
        Keeps-then
          (Ensures-branch
            (λ _.
              Keeps-then (Triple-lift (has_pending_checkpoints-Keeps env P sj))
                (λ found. Keeps-pure _))
            (λ _. Keeps-pure _))
          (λ wait.
            Ensures-branch (λ _. Keeps-pure _)
              (λ _.
                Ensures-branch (λ _. create_missing-Keeps template _ _ env.patience _ _ _)
                  (λ _. Keeps-pure _)))
  ]

  has_valid_job-Keeps : (jobs : List Job) → Keeps P (has_valid_job env jobs)
  unfolding has_valid_job
  has_valid_job-Keeps [] = Keeps-pure _
  has_valid_job-Keeps (job ∷ jobs) =
      Keeps-option job.meta.deletion_timestamp
        (Ensures-branch (λ _. Keeps-pure _) (λ _. has_valid_job-Keeps jobs))
        (λ t.
          Keeps-then (Keeps-ask _)
            (λ now. Ensures-branch (λ _. Keeps-pure _) (λ _. has_valid_job-Keeps jobs)))

  has_job-Keeps : (i : ℤ) → Keeps P (has_job env sj i)
  unfolding has_job
  has_job-Keeps i =
      Keeps-then (Keeps-ask _) elim [ err e ↦ Keeps-pure _ | ok jobs ↦ has_valid_job-Keeps jobs ]

  create_job_replica-Keeps : (name : String) (i : ℤ) → Keeps P (create_job_replica env sj name i)
  unfolding create_job_replica
  create_job_replica-Keeps name i = Keeps-then (Keeps-ask _) (λ instances.
      Keeps-result (env.util.set_controller_reference sj.meta (new_job sj name i instances).meta)
        (λ e. Keeps-pure _)
        (λ m owned. Keeps-act _ _ (λ a t p.
          rules.job sj _ a t known
            (record {
              before = (new_job sj name i instances).meta;
              marked = new_job-IsMarked sj name i instances;
              owned = owned;
            })
            p)))

  create_replicas-Keeps :
      (desired needed : ℤ) (fuel : ℕ) (index created skipped : ℤ) (taken : List ℤ)
      → Keeps P (create_replicas env sj desired needed fuel index created skipped taken)
  unfolding create_replicas
  create_replicas-Keeps desired needed zero index created skipped taken = Ensures-stuck
  create_replicas-Keeps desired needed (suc fuel) index created skipped taken =
      let again = create_replicas-Keeps desired needed fuel in
      Ensures-branch
        (λ _. Keeps-option (skip_taken (double32 desired) taken index) Ensures-stuck (λ i.
          Ensures-branch (λ _. Keeps-pure _)
            (λ _. Keeps-then (has_job-Keeps i) (λ valid.
              Ensures-branch (λ _. again _ _ _ _)
                (λ _. Keeps-then (Keeps-ask _) (λ instances.
                  Ensures-branch (λ _. Ensures-branch (λ _. Keeps-pure _) (λ _. again _ _ _ _))
                    (λ _. Keeps-then (Keeps-ask _) (λ now.
                      Keeps-then (create_job_replica-Keeps _ i)
                        elim [ err e ↦ again _ _ _ _ | ok _ ↦ again _ _ _ _ ]))))))))
        (λ _. Keeps-pure _)

  fill_replicas-Keeps : (jobs : List Job) → Keeps P (fill_replicas env sj jobs)
  unfolding fill_replicas
  fill_replicas-Keeps jobs =
      Keeps-then (Triple-lift (Triple-weaken (λ m t h. h.1) (job_indices-Indexed env P jobs [])))
        (λ taken.
          Ensures-branch
            (λ _. Keeps-then (create_replicas-Keeps _ _ _ _ _ _ taken) (λ _. Keeps-pure _))
            (λ _. Keeps-pure _))

  pub reconcile_job_replicas-Keeps : Keeps P (reconcile_job_replicas env sj)
  unfolding reconcile_job_replicas fill_unless_pending
  reconcile_job_replicas-Keeps = Keeps-then (Keeps-ask _) elim [
    | err e ↦ Keeps-pure _
    | ok jobs ↦
        Keeps-then (Triple-lift (has_pending_checkpoints-Keeps env P sj))
          (λ pending. Ensures-branch (λ _. Keeps-pure _) (λ _. fill_replicas-Keeps jobs))
  ]
