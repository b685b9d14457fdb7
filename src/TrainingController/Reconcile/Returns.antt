-- ===== src/TrainingController/Reconcile/Returns.antt =====
-- `Reconcile` of a training job comes to its end where creations are accepted.
use spot_instance_training_o.Base.{
  ℕ, ◌+◌, ◌-◌, ◌*◌, ◌≤◌, ◌<◌, ◌≡◌, refl, String, List, pos, count, length, i32_max, to_int32_exact,
  sub32_exact, arith,
}
use spot_instance_training_o.Api.Meta.{Labels}
use spot_instance_training_o.Api.Template.{InstanceTemplate}
use spot_instance_training_o.Api.Instance.{ProvisionedInstance}
use spot_instance_training_o.Api.Training.{SpotInstanceJob}
use spot_instance_training_o.Api.Kube.{Job}
use spot_instance_training_o.Cluster.Errors.{Result, ok, err}
use spot_instance_training_o.Cluster.Events.{Trace}
use spot_instance_training_o.Cluster.Client.{Client}
use spot_instance_training_o.Cluster.Env.{Env}
use spot_instance_training_o.Cluster.Hoare.{
  Returns, Returns-of, Keeps-total, Ensures-ask_of, Ensures-branch, Ensures-known, Keeps-then,
  Keeps-pure,
}
use spot_instance_training_o.TrainingController.Names.{desired_replicas}
use spot_instance_training_o.TrainingController.Instances.{
  is_active, taken_indices, create_missing, must_wait, reconcile_provisioned_instances,
}
use spot_instance_training_o.TrainingController.Instances.Creates.{created_labels}
use spot_instance_training_o.TrainingController.Instances.Fresh.{
  Accepting, HasCreated, create_missing-Creates,
}
use spot_instance_training_o.TrainingController.Jobs.{reconcile_job_replicas}
use spot_instance_training_o.TrainingController.Jobs.Attempts.{OwnerLaw, job_labels, jobs_made}
use spot_instance_training_o.TrainingController.Jobs.Replicas.{Made}
use spot_instance_training_o.TrainingController.Jobs.Gaps.{Fills, fill_unless_pending-Fills}
use spot_instance_training_o.TrainingController.Jobs.Indexed.{has_pending_checkpoints-Keeps}
use spot_instance_training_o.TrainingController.Reconcile.Replicas.{
  TrainingRules, reconcile_provisioned_instances-Keeps, reconcile_job_replicas-Keeps,
}
use spot_instance_training_o.TrainingController.Reconcile.Kept.{Loops}

-- Lists are no longer than an `int32` can count.
abbrev FewActive : Result (List ProvisionedInstance) → Type 0
FewActive r = (items : List ProvisionedInstance) → r ≡ ok items → count is_active items ≤ i32_max

abbrev FewJobs : Result (List Job) → Type 0
FewJobs r = (jobs : List Job) → r ≡ ok jobs → length jobs ≤ i32_max

pub record Sized {W : Type 0} (client : Client W) : Type 0 where
  pub instances :
      (namespace : String) (selector : Labels) (s : W) (items : List ProvisionedInstance)
      → (client.list_instances namespace selector s).0 ≡ ok items
      → count is_active items ≤ i32_max
  pub jobs :
      (namespace : String) (selector : Labels) (s : W) (jobs : List Job)
      → (client.list_jobs namespace selector s).0 ≡ ok jobs
      → length jobs ≤ i32_max

module _ {C S W : Type 0} (env : Env C S W) (accepting : Accepting env) (sized : Sized env.client)
    (law : OwnerLaw env.util) (d : ℕ) (small : 4 * d + 2 ≤ i32_max) (enough : d < env.patience)
    (sj : SpotInstanceJob) (wants : desired_replicas sj ≡ pos d) where
  create_missing-Returns :
      (template : InstanceTemplate) (items : List ProvisionedInstance) (n : ℕ)
      → n ≤ d
      → Returns (
          create_missing env sj template
            (pos d)
            (pos n)
            env.patience
            (pos 0)
            (pos 0)
            (taken_indices items))
  create_missing-Returns template items n h =
      Returns-of (λ w t. created_labels t ≡ created_labels w.trace)
        (λ w.
          HasCreated env accepting sj template d n small (taken_indices items) 0 n
            (created_labels w.trace))
        (λ w. refl)
        (λ w.
          create_missing-Creates env accepting sj template d n small env.patience n 0 0
            (taken_indices items) (created_labels w.trace) (omega arith) (omega arith) (omega arith)
            h)

  reconcile_provisioned_instances-Returns :
      (template : InstanceTemplate) → Returns (reconcile_provisioned_instances env sj template)
  unfolding reconcile_provisioned_instances must_wait
  reconcile_provisioned_instances-Returns template =
      Ensures-known FewActive
        (Ensures-ask_of FewActive _ (λ s. sized.instances _ _ s) (λ a t few p. (few, p)))
        elim [
          | err e ↦ λ few. Keeps-pure _
          | ok items ↦ λ few.
              let fits : count is_active items ≤ i32_max = few items refl in
              rw (wants, to_int32_exact (count is_active items) fits)
                (Keeps-then
                  (Ensures-branch
                    (λ _.
                      Keeps-then (has_pending_checkpoints-Keeps env (λ t. Unit) sj)
                        (λ found. Keeps-pure _))
                    (λ _. Keeps-pure _))
                  (λ wait.
                    Ensures-branch (λ _. Keeps-pure _)
                      (λ _.
                        Ensures-branch
                          (λ less.
                            let lt : count is_active items < d = ground arith in
                            rw (sub32_exact d (count is_active items) (omega arith) (omega arith)) (
                              create_missing-Returns template items (d - count is_active items)
                                (omega arith)))
                          (λ _. Keeps-pure _))))
        ]

  reconcile_job_replicas-Returns : Returns (reconcile_job_replicas env sj)
  unfolding reconcile_job_replicas
  reconcile_job_replicas-Returns =
      Ensures-known FewJobs
        (Ensures-ask_of FewJobs _ (λ s. sized.jobs _ _ s) (λ a t few p. (few, p)))
        elim [
          | err e ↦ λ few. Keeps-pure _
          | ok jobs ↦ λ few.
              Returns-of (λ w. Made (job_labels w.trace) (jobs_made w.trace))
                (λ w r t. (r ≡ ok tt) × Fills d jobs (job_labels w.trace) (jobs_made w.trace) t)
                (λ w. (refl, refl))
                (λ w.
                  fill_unless_pending-Fills env law sj d wants (omega arith) (job_labels w.trace)
                    (jobs_made w.trace) jobs (few jobs refl))
        ]

-- Both loops come to their end.
pub Loops-total :
    {C S W : Type 0} (env : Env C S W) (Q : SpotInstanceJob → Type 0) (P : Trace → Type 0) (d : ℕ)
    → TrainingRules env.util Q P
    → Accepting env
    → Sized env.client
    → OwnerLaw env.util
    → 4 * d + 2 ≤ i32_max
    → d < env.patience
    → ((sj : SpotInstanceJob) → Q sj → desired_replicas sj ≡ pos d)
    → Loops ⊥ env Q P
Loops-total env Q P d rules accepting sized law small enough wants = record {
  instances = λ sj template known.
      Keeps-total
        (reconcile_provisioned_instances-Returns env accepting sized law d small enough sj
          (wants sj known) template)
        (reconcile_provisioned_instances-Keeps env Q P rules sj known template);
  jobs = λ sj known.
      Keeps-total
        (reconcile_job_replicas-Returns env accepting sized law d small enough sj (wants sj known))
        (reconcile_job_replicas-Keeps env Q P rules sj known);
}
