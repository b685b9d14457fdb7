-- ===== src/TrainingController/Completed/Chosen.antt =====
-- `processCompletedCheckpoints`: the jobs that it touches.
use spot_instance_training_o.Base.{◌≡◌, refl, Bool, true, ◌&&◌, not, String, List, [], ◌∷◌, All}
use spot_instance_training_o.Api.Training.{SpotInstanceJob}
use spot_instance_training_o.Api.Kube.{Checkpoint}
use spot_instance_training_o.Cluster.Events.{Trace, job_created, job_deleted}
use spot_instance_training_o.Cluster.Prog.{World}
use spot_instance_training_o.Cluster.Env.{Env}
use spot_instance_training_o.Cluster.Client.{Util}
use spot_instance_training_o.Cluster.Hoare.{Yields}
use spot_instance_training_o.TrainingController.Jobs.Attempts.{OwnerLaw}
use spot_instance_training_o.TrainingController.Names.{is_in}
use spot_instance_training_o.TrainingController.Completed.{
  is_source, checkpoint_containers, restore_from, process_completed_checkpoints,
}
use spot_instance_training_o.TrainingController.Restore.Kept.{GetLaw, JobRules}
use spot_instance_training_o.TrainingController.Completed.Kept.{
  RangeLaw, restore_from-Keeps, process_completed_checkpoints-Keeps,
}

-- The names of the jobs whose deletion or creation was asked for, the latest first.
abbrev pub touched_jobs : Trace → List String
touched_jobs [] = []
touched_jobs (job_deleted job answer ∷ t) = job.meta.name ∷ touched_jobs t
touched_jobs (job_created job answer ∷ t) = job.meta.name ∷ touched_jobs t
touched_jobs (e ∷ t) = touched_jobs t

abbrev pub Touches : (String → Bool) → Trace → Type 0
Touches φ t = All (λ n. φ n ≡ true) (touched_jobs t)

pub Touches-rules :
    (u : Util) (sj : SpotInstanceJob) (φ : String → Bool) → JobRules u sj φ (Touches φ)
Touches-rules u sj φ = record { deleted = λ job a t h p. (h, p); created = λ job a t h o p. (h, p) }

-- If `Get` answers with the job of the name it is asked for, setting the owner reference keeps name,
-- labels and annotations, and ranging over a map gives names of the map, then the treatment of one
-- checkpoint returns, whatever is answered to its calls, and deletes and creates only jobs whose names
-- are among those to update and are not the name of the job that the checkpoint was made of, if that
-- was so before.
pub restore_from-Touches :
    {C S W : Type 0} (env : Env C S W) (sj : SpotInstanceJob)
    (range : List String → W → List String × W) (jobs processed : List String) (cp : Checkpoint)
    (w : World W)
    → GetLaw env.client
    → OwnerLaw env.util
    → RangeLaw range
    → Touches (λ n. is_in jobs n && not (is_source cp n)) w.trace
    → Yields
        (restore_from env sj range jobs cp (checkpoint_containers cp.status) processed w)
        (λ _ t. Touches (λ n. is_in jobs n && not (is_source cp n)) t)
restore_from-Touches env sj range jobs processed cp w gets law ranges before =
    (restore_from-Keeps env gets law sj range ranges jobs
        (λ n. is_in jobs n && not (is_source cp n))
        (Touches (λ n. is_in jobs n && not (is_source cp n)))
        (Touches-rules env.util sj (λ n. is_in jobs n && not (is_source cp n))) cp
        (checkpoint_containers cp.status) processed (λ n here other. rw (here, other) refl)).at
      w before

-- If `Get` answers with the job of the name it is asked for, setting the owner reference keeps name,
-- labels and annotations, and ranging over a map gives names of the map, then the whole call returns,
-- whatever checkpoints are listed, and deletes and creates only jobs whose names are among those to
-- update, if that was so before.
pub process_completed_checkpoints-Touches :
    {C S W : Type 0} (env : Env C S W) (sj : SpotInstanceJob)
    (range : List String → W → List String × W) (jobs : List String) (w : World W)
    → GetLaw env.client
    → OwnerLaw env.util
    → RangeLaw range
    → Touches (is_in jobs) w.trace
    → Yields (process_completed_checkpoints env sj range jobs w) (λ _ t. Touches (is_in jobs) t)
process_completed_checkpoints-Touches env sj range jobs w gets law ranges before =
    (process_completed_checkpoints-Keeps env sj range (is_in jobs) (Touches (is_in jobs)) jobs gets
        law ranges (Touches-rules env.util sj (is_in jobs)) (λ n here. here)).at
      w before
