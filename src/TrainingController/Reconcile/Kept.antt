-- ===== src/TrainingController/Reconcile/Kept.antt =====
-- `Reconcile` of a training job: what it keeps, if each kind of its writes does.
use mathlib.Core.Path.{subst}
use spot_instance_training_o.Base.{false, ◌≡◌, refl, Bool, String, List}
use spot_instance_training_o.Api.Template.{InstanceTemplate}
use spot_instance_training_o.Api.Training.{SpotInstanceJob}
use spot_instance_training_o.Cluster.Errors.{Result, ok, err, Outcome, is_over}
use spot_instance_training_o.Cluster.Events.{Trace}
use spot_instance_training_o.Cluster.Prog.{Prog}
use spot_instance_training_o.Cluster.Env.{Env}
use spot_instance_training_o.TrainingController.Instances.{reconcile_provisioned_instances}
use spot_instance_training_o.TrainingController.Jobs.{reconcile_job_replicas}
use spot_instance_training_o.Cluster.Hoare.{
  Triple, Preserves, Triple-weaken, Ensures-branch, Ensures-pure, Ensures-act_of, Ensures-ask_of,
  Ensures-known, Keeps-then, Keeps-ask, Keeps-pure, Triple-lift,
}
use spot_instance_training_o.TrainingController.Jobs.Attempts.{OwnerLaw}
use spot_instance_training_o.TrainingController.Jobs.Indexed.{has_pending_checkpoints-Keeps}
use spot_instance_training_o.TrainingController.Restore.Kept.{GetLaw}
use spot_instance_training_o.TrainingController.Completed.Kept.{RangeLaw}
use spot_instance_training_o.TrainingController.Reconcile.{
  with_finalizer, ensure_finalizer, ensure_status, fetch_instance_template, guard_instances, finish,
  reconcile_replicas, reconcile_ready, reconcile_live, reconcile,
}
use spot_instance_training_o.TrainingController.Reconcile.Cleanup.{
  update_status-Keeps, handle_deletion-Keeps,
}
use spot_instance_training_o.TrainingController.Reconcile.Preempted.{guard_preemption-Keeps}
use spot_instance_training_o.TrainingController.Reconcile.Replicas.{
  TrainingRules, reconcile_provisioned_instances-Keeps, reconcile_job_replicas-Keeps,
}

-- The two parts of `Reconcile` that have loops without a bound of their own.
pub record Loops {C S W : Type 0} (Z : Type 0) (env : Env C S W) (Q : SpotInstanceJob → Type 0)
    (P : Trace → Type 0) : Type 0 where
  pub instances :
      (sj : SpotInstanceJob) (template : InstanceTemplate)
      → Q sj
      → Preserves Z P (reconcile_provisioned_instances env sj template)
  pub jobs : (sj : SpotInstanceJob) → Q sj → Preserves Z P (reconcile_job_replicas env sj)

pub Loops-partial :
    {C S W : Type 0} (env : Env C S W) (Q : SpotInstanceJob → Type 0) (P : Trace → Type 0)
    → TrainingRules env.util Q P
    → Loops (Unit {0}) env Q P
Loops-partial env Q P rules = record {
  instances =
      λ sj template known. reconcile_provisioned_instances-Keeps env Q P rules sj known template;
  jobs = λ sj known. reconcile_job_replicas-Keeps env Q P rules sj known;
}

-- An answer with a training job that `Q` holds of.
abbrev pub Answers : (SpotInstanceJob → Type 0) → Result SpotInstanceJob → Type 0
Answers Q r = (sj : SpotInstanceJob) → r ≡ ok sj → Q sj

-- What is known of the training job of that name stays known as the API server answers it.
pub record Stays {C S W : Type 0} (env : Env C S W) (range : List String → W → List String × W)
    (Q : SpotInstanceJob → Type 0) (namespace name : String) : Type 0 where
  pub got : (s : W) → Answers Q (env.client.get_training namespace name s).0
  pub updated :
      (sj : SpotInstanceJob) (s : W)
      → Q sj
      → Answers Q (env.client.update_training (with_finalizer env range sj) s).0
  pub status_updated :
      (sj : SpotInstanceJob) (s : W) → Q sj → Answers Q (env.client.update_training_status sj s).0

Answers-ok : (Q : SpotInstanceJob → Type 0) (sj : SpotInstanceJob) → Q sj → Answers Q (ok sj)
Answers-ok Q sj known sj' e = subst Q (cc e) known

-- The property is kept, and the outcome is an error or a time to look again.
abbrev pub GoesOn : {W : Type 0} → Type 0 → (Trace → Type 0) → Prog W Outcome → Type 0
GoesOn Z P m = Triple Z P m (λ out t. P t × (is_over out ≡ false))

module _ {C S W : Type 0} (env : Env C S W) {Z : Type 0} {Q : SpotInstanceJob → Type 0}
    (P : Trace → Type 0) (rules : TrainingRules env.util Q P) (gets : GetLaw env.client)
    (law : OwnerLaw env.util) where
  module _ (range : List String → W → List String × W) (ranges : RangeLaw range)
      (loops : Loops Z env Q P) where
    module _ (sj : SpotInstanceJob) (known : Q sj) where
      guard_instances-Keeps :
          (template : InstanceTemplate) (pending : Result Bool)
          → Preserves Z P (guard_instances env range sj template pending)
      unfolding guard_instances
      guard_instances-Keeps template (err e) = Keeps-pure _
      guard_instances-Keeps template (ok b) =
          Ensures-branch (λ _. Keeps-pure _) (λ _. loops.instances sj template known)

      finish-GoesOn : (pending : Bool) → GoesOn Z P (finish env range sj pending)
      unfolding finish
      finish-GoesOn pending = Keeps-then (loops.jobs sj known) elim [
        | err e ↦ Ensures-pure _ (λ t p. (p, refl))
        | ok _ ↦ Keeps-then (update_status-Keeps env P rules sj) elim [
          | err e ↦ Ensures-pure _ (λ t p. (p, refl))
          | ok _ ↦
              Ensures-branch (λ _. Ensures-pure _ (λ t p. (p, refl)))
                (λ _. Ensures-pure _ (λ t p. (p, refl)))
        ]
      ]

      reconcile_ready-GoesOn : GoesOn Z P (reconcile_ready env range sj)
      unfolding reconcile_ready fetch_instance_template reconcile_replicas
      reconcile_ready-GoesOn = Keeps-then (Keeps-ask _) elim [
        | err e ↦ Ensures-pure _ (λ t p. (p, refl))
        | ok template ↦
            let looks = Triple-lift (has_pending_checkpoints-Keeps env P sj) in
            Keeps-then looks (λ pending.
              Keeps-then (guard_preemption-Keeps env P rules gets law range ranges sj known pending)
                elim [
                  | err e ↦ Ensures-pure _ (λ t p. (p, refl))
                  | ok _ ↦ Keeps-then looks (λ still.
                      Keeps-then (guard_instances-Keeps template still)
                        elim [ err e ↦ Ensures-pure _ (λ t p. (p, refl)) | ok _ ↦ finish-GoesOn _ ])
                ])
      ]

    module _ (namespace name : String) (stays : Stays env range Q namespace name) where
      ensure_finalizer-Answers :
          (sj : SpotInstanceJob)
          → Q sj
          → Triple Z P (ensure_finalizer env range sj) (λ r t. Answers Q r × P t)
      unfolding ensure_finalizer
      ensure_finalizer-Answers sj known =
          Ensures-branch (λ _. Ensures-pure _ (λ t p. (Answers-ok Q sj known, p)))
            (λ _.
              Ensures-act_of (Answers Q) _ _ (λ s. stays.updated sj s known)
                (λ a t answers p. (answers, rules.training _ a t p)))

      ensure_status-Answers :
          (sj : SpotInstanceJob)
          → Q sj
          → Triple Z P (ensure_status env range sj) (λ r t. Answers Q r × P t)
      unfolding ensure_status
      ensure_status-Answers sj known =
          Ensures-branch
            (λ _.
              Ensures-act_of (Answers Q) _ _ (λ s. stays.status_updated sj s known)
                (λ a t answers p. (answers, rules.status _ a t p)))
            (λ _. Ensures-pure _ (λ t p. (Answers-ok Q sj known, p)))

      pub reconcile_live-GoesOn :
          (sj : SpotInstanceJob) → Q sj → GoesOn Z P (reconcile_live env range sj)
      unfolding reconcile_live
      reconcile_live-GoesOn sj known =
          Ensures-known (Answers Q) (ensure_finalizer-Answers sj known) elim [
            | err e ↦ λ answers. Ensures-pure _ (λ t p. (p, refl))
            | ok sj' ↦ λ answers.
                Ensures-known (Answers Q) (ensure_status-Answers sj' (answers sj' refl)) elim [
                  | err e ↦ λ answers'. Ensures-pure _ (λ t p. (p, refl))
                  | ok sj'' ↦ λ answers'. reconcile_ready-GoesOn sj'' (answers' sj'' refl)
                ]
          ]

      pub reconcile-Keeps : Preserves Z P (reconcile env range namespace name)
      unfolding reconcile
      reconcile-Keeps =
          Ensures-known (Answers Q)
            (Ensures-ask_of (Answers Q) _ stays.got (λ a t answers p. (answers, p)))
            elim [
              | err e ↦ λ answers. Keeps-pure _
              | ok sj ↦ λ answers.
                  Ensures-branch (λ _. handle_deletion-Keeps env P rules sj)
                    (λ _. Triple-weaken (λ o t h. h.0) (reconcile_live-GoesOn sj (answers sj refl)))
            ]
