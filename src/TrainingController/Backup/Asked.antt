-- ===== src/TrainingController/Backup/Asked.antt =====
-- `createCheckpointForJob`: it adds at most one checkpoint to what has been asked for.
use spot_instance_training_o.Base.{ℕ, suc, ◌/◌, refl, String, Option, none, some, List, [], ◌∷◌}
use spot_instance_training_o.Api.Training.{SpotInstanceJob}
use spot_instance_training_o.Api.Meta.{label}
use spot_instance_training_o.Api.Kube.{Pod, NewCheckpoint}
use spot_instance_training_o.Cluster.Errors.{Result, ok, err, second}
use spot_instance_training_o.Cluster.Events.{Trace, checkpoint_created}
use spot_instance_training_o.Cluster.Env.{Env}
use spot_instance_training_o.TrainingController.Marks.{IsMarked}
use spot_instance_training_o.Cluster.Hoare.{
  Delivers, Preserves, Ensures-pure, Ensures-act, Ensures-bind, Ensures-branch, Keeps-then,
  Keeps-pure, Keeps-ask, Triple-weaken,
}
use spot_instance_training_o.TrainingController.Pods.{first_alive}
use spot_instance_training_o.TrainingController.Backup.{
  new_checkpoint, create_checkpoint_of, checkpoint_pods, create_checkpoint_for_job,
}
use spot_instance_training_o.TrainingController.Backup.Alive.{may_create-Keeps, job_pods-Keeps}

-- `k` counts the checkpoints that may have been asked for.
pub record AskRules (sj : SpotInstanceJob) (P : ℕ → Trace → Type 0) : Type 0 where
  pub asked :
      (k : ℕ) (cp : NewCheckpoint) (a : Result (Unit {0})) (t : Trace)
      → IsMarked sj cp.meta
      → P k t
      → P (suc k) (checkpoint_created cp a ∷ t)
  pub more : (k : ℕ) (t : Trace) → P k t → P (suc k) t

new_checkpoint-IsMarked :
    (sj : SpotInstanceJob) (name : String) (pod : Pod) (seconds : ℕ)
    → IsMarked sj (new_checkpoint sj name pod seconds).meta
unfolding new_checkpoint label
new_checkpoint-IsMarked sj name pod seconds = record { place = refl; mark = refl }

module _ {C S W : Type 0} (env : Env C S W) where
  pub first_alive-Keeps :
      (P : Trace → Type 0) (skip : String) (pods : List Pod)
      → Preserves ⊥ P (first_alive env skip pods)
  unfolding first_alive
  first_alive-Keeps P skip [] = Keeps-pure _
  first_alive-Keeps P skip (pod ∷ pods) =
      Ensures-branch (λ _. first_alive-Keeps P skip pods)
        (λ _.
          Ensures-branch (λ _. first_alive-Keeps P skip pods)
            (λ _.
              Keeps-then (Keeps-ask _)
                (λ found. Ensures-branch (λ _. Keeps-pure _) (λ _. first_alive-Keeps P skip pods))))

  module _ (sj : SpotInstanceJob) (name : String) (P : ℕ → Trace → Type 0) (rules : AskRules sj P)
      (k : ℕ) where
    create_checkpoint_of-Asks :
        (o : Option Pod) → Delivers (P k) (create_checkpoint_of env sj name o) (λ _. P (suc k))
    unfolding create_checkpoint_of
    create_checkpoint_of-Asks none = Ensures-pure _ (λ t p. rules.more k t p)
    create_checkpoint_of-Asks (some pod) = Keeps-then (Keeps-ask _) (λ now.
        Ensures-bind {Q = λ _. P (suc k)}
          (Ensures-act _ _
            (λ a t p. rules.asked k _ a t (new_checkpoint-IsMarked sj name pod (now / second)) p))
          (λ a. Keeps-pure _))

    checkpoint_pods-Asks :
        (r : Result (List Pod)) → Delivers (P k) (checkpoint_pods env sj name r) (λ _. P (suc k))
    unfolding checkpoint_pods
    checkpoint_pods-Asks (err e) = Ensures-pure _ (λ t p. rules.more k t p)
    checkpoint_pods-Asks (ok pods) =
        Keeps-then (first_alive-Keeps (P k) "" pods) create_checkpoint_of-Asks

    pub create_checkpoint_for_job-Asks :
        Delivers (P k) (create_checkpoint_for_job env sj name) (λ _. P (suc k))
    unfolding create_checkpoint_for_job
    create_checkpoint_for_job-Asks = Keeps-then (Keeps-ask _) λ listed.
        Keeps-then (Triple-weaken (λ a t h. h.1) (may_create-Keeps env sj name (P k) listed))
          λ allowed.
            Ensures-branch (λ _. Keeps-then (job_pods-Keeps env sj name (P k)) checkpoint_pods-Asks)
              (λ _. Ensures-pure _ (λ t p. rules.more k t p))
