-- ===== src/TrainingController/Reconcile/Preempted.antt =====
-- What the handling of preemption and the goroutine that restores a job keep, if each kind of write
-- does.
use spot_instance_training_o.Base.{
  ◌≡◌, refl, Bool, true, String, Option, none, some, List, [], ◌∷◌, All,
}
use spot_instance_training_o.Api.Instance.{ProvisionedInstance}
use spot_instance_training_o.Api.Training.{SpotInstanceJob}
use spot_instance_training_o.Api.Kube.{Job}
use spot_instance_training_o.Cluster.Errors.{Result, ok, err}
use spot_instance_training_o.Cluster.Events.{Trace}
use spot_instance_training_o.Cluster.Client.{Util}
use spot_instance_training_o.Cluster.Env.{Env}
use spot_instance_training_o.Cluster.Hoare.{
  Preserves, Ensures-branch, Keeps-then, Keeps-ask, Keeps-pure, Triple-lift,
}
use spot_instance_training_o.TrainingController.Names.{is_preempted}
use spot_instance_training_o.TrainingController.Jobs.Attempts.{OwnerLaw}
use spot_instance_training_o.TrainingController.Restore.Kept.{
  GetLaw, update_job_with_checkpoint-Keeps,
}
use spot_instance_training_o.TrainingController.Completed.Kept.{RangeLaw}
use spot_instance_training_o.TrainingController.Latest.{
  Candidate, latest, restore_latest, recreate_job_from_latest_checkpoint,
}
use spot_instance_training_o.TrainingController.Preemption.{handle_listed, handle_preemption}
use spot_instance_training_o.TrainingController.Preemption.Chosen.{Covers, Passes}
use spot_instance_training_o.TrainingController.Preemption.Kept.{WriteRules, handle_each-Asks}
use spot_instance_training_o.TrainingController.Reconcile.{guard_preemption}
use spot_instance_training_o.TrainingController.Reconcile.Replicas.{TrainingRules}

abbrev any_name : String → Bool
any_name _ = true

TrainingRules-writes :
    (u : Util) (Q : SpotInstanceJob → Type 0) (P : Trace → Type 0) (sj : SpotInstanceJob)
    → TrainingRules u Q P
    → Q sj
    → WriteRules u sj any_name (λ k. P)
TrainingRules-writes u Q P sj rules known = record {
  jobs = λ k. record {
    deleted = λ j a t h p. rules.job_gone j a t p;
    created = λ j a t h o p. rules.job sj j a t known o p;
  };
  checkpoints = record {
    asked = λ k cp a t m p. rules.checkpoint sj cp a t known m p;
    more = λ k t p. p;
  };
  restores = λ k name t h p. rules.restore sj name t p;
}

-- Any name passes.
All-any_name : (jobs : List Job) → All (Passes any_name) jobs
All-any_name [] = tt
All-any_name (j ∷ js) = ((λ _. refl), All-any_name js)

All-Covers :
    {C S W : Type 0} (env : Env C S W) (sj : SpotInstanceJob) (items : List ProvisionedInstance)
    → All (λ pi. is_preempted pi ≡ true → Covers env sj any_name pi) items
All-Covers env sj [] = tt
All-Covers env sj (pi ∷ items) = (
  (λ _. record {
    by_index = λ s jobs listed. All-any_name jobs;
    by_node = λ s pods name listed h. refl;
  }),
  All-Covers env sj items,
)

module _ {C S W : Type 0} (env : Env C S W) {Z : Type 0} {Q : SpotInstanceJob → Type 0}
    (P : Trace → Type 0) (rules : TrainingRules env.util Q P) (gets : GetLaw env.client)
    (law : OwnerLaw env.util) where
  module _ (sj : SpotInstanceJob) (known : Q sj) (name : String) where
    restore_latest-Keeps :
        (best : Option Candidate) → Preserves Z P (restore_latest env sj name best)
    unfolding restore_latest
    restore_latest-Keeps none = Keeps-pure _
    restore_latest-Keeps (some best) = Keeps-then (Keeps-ask _) elim [
      | err e ↦ Keeps-pure _
      | ok job ↦
          Keeps-then
            (Triple-lift (
              update_job_with_checkpoint-Keeps env gets law sj any_name P
                ((TrainingRules-writes env.util Q P sj rules known).jobs 0) name best.1 refl))
            (λ r. Keeps-pure _)
    ]

    pub recreate_job_from_latest_checkpoint-Keeps :
        Preserves Z P (recreate_job_from_latest_checkpoint env sj name)
    unfolding recreate_job_from_latest_checkpoint
    recreate_job_from_latest_checkpoint-Keeps =
        Keeps-then (Keeps-ask _)
          elim [ err e ↦ Keeps-pure _ | ok cps ↦ restore_latest-Keeps (latest env.util cps none) ]

  module _ (range : List String → W → List String × W) (ranges : RangeLaw range)
      (sj : SpotInstanceJob) (known : Q sj) where
    handle_listed-Keeps :
        (listed : Result (List ProvisionedInstance))
        → Preserves Z P (handle_listed env range sj listed)
    unfolding handle_listed
    handle_listed-Keeps (err e) = Keeps-pure _
    handle_listed-Keeps (ok items) =
        Keeps-then
          (Triple-lift (
            handle_each-Asks env range sj ranges any_name gets law (λ k. P)
              (TrainingRules-writes env.util Q P sj rules known) 0 items items []
              (All-Covers env sj items) (λ n h. refl)))
          (λ _. Keeps-pure _)

    pub guard_preemption-Keeps :
        (pending : Result Bool) → Preserves Z P (guard_preemption env range sj pending)
    unfolding guard_preemption handle_preemption
    guard_preemption-Keeps (err e) = Keeps-pure _
    guard_preemption-Keeps (ok b) =
        Ensures-branch (λ _. Keeps-pure _) (λ _. Keeps-then (Keeps-ask _) handle_listed-Keeps)
