-- ===== src/TrainingController/Completed/Kept.antt =====
-- `processCompletedCheckpoints`: what it keeps, if deleting and creating jobs of chosen names does.
use spot_instance_training_o.Base.{◌≡◌, Bool, true, false, String, List, [], ◌∷◌, All}
use spot_instance_training_o.Api.Training.{SpotInstanceJob}
use spot_instance_training_o.Api.Kube.{Job, Checkpoint}
use spot_instance_training_o.Cluster.Errors.{Result, ok, err}
use spot_instance_training_o.Cluster.Events.{Trace}
use spot_instance_training_o.Cluster.Env.{Env}
use spot_instance_training_o.Cluster.Hoare.{
  Preserves, Ensures-ask_of, Ensures-bind, Ensures-branch, Keeps-then, Keeps-ask, Keeps-pure,
  Triple-of, Triple-before,
}
use spot_instance_training_o.TrainingController.Jobs.Attempts.{OwnerLaw}
use spot_instance_training_o.TrainingController.Restore.{Fields}
use spot_instance_training_o.TrainingController.Names.{is_in}
use spot_instance_training_o.TrainingController.Completed.{
  is_source, restore_found, restore_one, restore_each, restore_from, process_checkpoints,
  process_completed_checkpoints,
}
use spot_instance_training_o.TrainingController.Restore.Kept.{
  GetLaw, JobRules, update_job_with_checkpoint-Keeps,
}

module _ {C S W : Type 0} (env : Env C S W) (gets : GetLaw env.client) (law : OwnerLaw env.util)
    (sj : SpotInstanceJob) (φ : String → Bool) (P : Trace → Type 0)
    (rules : JobRules env.util sj φ P) where
  restore_found-Keeps :
      (containers : List Fields) (name : String) (r : Result Job)
      → φ name ≡ true
      → Preserves ⊥ P (restore_found env sj containers name r)
  unfolding restore_found
  restore_found-Keeps containers name (err e) chosen = Keeps-pure _
  restore_found-Keeps containers name (ok job) chosen =
      Ensures-branch (λ _. Keeps-pure _)
        (λ _.
          Ensures-branch (λ _. Keeps-pure _)
            (λ _.
              Keeps-then
                (update_job_with_checkpoint-Keeps env gets law sj φ P rules name containers chosen)
                (λ r. Keeps-pure _)))

  -- A name that the checkpoint was not made of, as far as `φ` holds of it.
  restore_one-Keeps :
      (cp : Checkpoint) (containers : List Fields) (name : String) (processed : List String)
      → (is_source cp name ≡ false → φ name ≡ true)
      → Preserves ⊥ P (restore_one env sj cp containers name processed)
  unfolding restore_one
  restore_one-Keeps cp containers name processed chosen =
      Ensures-branch (λ _. Keeps-pure _)
        (λ not_source.
          Ensures-branch (λ _. Keeps-pure _)
            (λ _. Keeps-then (Keeps-ask _) (λ r.
              Keeps-then (restore_found-Keeps containers name r (chosen not_source))
                (λ b. Keeps-pure _))))

  restore_each-Keeps :
      (cp : Checkpoint) (containers : List Fields) (names processed : List String)
      → All (λ n. is_source cp n ≡ false → φ n ≡ true) names
      → Preserves ⊥ P (restore_each env sj cp containers names processed)
  unfolding restore_each
  restore_each-Keeps cp containers [] processed h = Keeps-pure _
  restore_each-Keeps cp containers (name ∷ names) processed h =
      Keeps-then (restore_one-Keeps cp containers name processed h.0)
        (λ processed'. restore_each-Keeps cp containers names processed' h.1)

-- Ranging over a map gives names of the map.
pub record RangeLaw {W : Type 0} (range : List String → W → List String × W) : Type 0 where
  pub names : (l : List String) (s : W) → All (λ n. is_in l n ≡ true) (range l s).0

pub All-map :
    (P Q : String → Type 0) (l : List String) → ((n : String) → P n → Q n) → All P l → All Q l
All-map P Q [] f h = tt
All-map P Q (n ∷ l) f h = (f n h.0, All-map P Q l f h.1)

module _ {C S W : Type 0} (env : Env C S W) (gets : GetLaw env.client) (law : OwnerLaw env.util)
    (sj : SpotInstanceJob) (range : List String → W → List String × W) (ranges : RangeLaw range)
    (jobs : List String) (φ : String → Bool) (P : Trace → Type 0)
    (rules : JobRules env.util sj φ P) where
  pub restore_from-Keeps :
      (cp : Checkpoint) (containers : List Fields) (processed : List String)
      → ((n : String) → is_in jobs n ≡ true → is_source cp n ≡ false → φ n ≡ true)
      → Preserves ⊥ P (restore_from env sj range jobs cp containers processed)
  unfolding restore_from
  restore_from-Keeps cp [] processed chosen = Keeps-pure _
  restore_from-Keeps cp (c ∷ cs) processed chosen =
      Ensures-bind {Q = λ a t. All (λ n. is_in jobs n ≡ true) a × P t}
        (Ensures-ask_of (All (λ n. is_in jobs n ≡ true)) _ (ranges.names jobs)
          (λ a t known h. (known, h)))
        λ names.
          Triple-of (λ t h. h.0)
            (λ known.
              Triple-before (λ t h. h.1)
                (restore_each-Keeps env gets law sj φ P rules cp (c ∷ cs) names processed (
                  All-map (λ n. is_in jobs n ≡ true) (λ n. is_source cp n ≡ false → φ n ≡ true)
                    names chosen known)))

  process_checkpoints-Keeps :
      (cps : List Checkpoint) (processed : List String)
      → ((n : String) → is_in jobs n ≡ true → φ n ≡ true)
      → Preserves ⊥ P (process_checkpoints env sj range jobs cps processed)
  unfolding process_checkpoints
  process_checkpoints-Keeps [] processed chosen = Keeps-pure _
  process_checkpoints-Keeps (cp ∷ cps) processed chosen =
      Keeps-then (restore_from-Keeps cp _ processed (λ n here _. chosen n here))
        (λ processed'. process_checkpoints-Keeps cps processed' chosen)

pub process_completed_checkpoints-Keeps :
    {C S W : Type 0} (env : Env C S W) (sj : SpotInstanceJob)
    (range : List String → W → List String × W) (φ : String → Bool) (P : Trace → Type 0)
    (jobs : List String)
    → GetLaw env.client
    → OwnerLaw env.util
    → RangeLaw range
    → JobRules env.util sj φ P
    → ((n : String) → is_in jobs n ≡ true → φ n ≡ true)
    → Preserves ⊥ P (process_completed_checkpoints env sj range jobs)
unfolding process_completed_checkpoints
process_completed_checkpoints-Keeps env sj range φ P [] gets law ranges rules chosen =
    Keeps-then (Keeps-ask _) elim [ err e ↦ Keeps-pure _ | ok cps ↦ Keeps-pure _ ]
process_completed_checkpoints-Keeps env sj range φ P (j ∷ js) gets law ranges rules chosen =
    Keeps-then (Keeps-ask _) elim [
      | err e ↦ Keeps-pure _
      | ok cps ↦
          process_checkpoints-Keeps env gets law sj range ranges (j ∷ js) φ P rules cps [] chosen
    ]
