-- ===== src/TrainingController/Completed.antt =====
-- spotinstancejob_checkpoint.go, `processCompletedCheckpoints`: the jobs of preempted nodes are replaced
-- by ones with the images of a completed checkpoint.
pub mod Kept
pub mod Chosen
use spot_instance_training_o.Base.{
  if◌then◌else◌, Bool, true, false, ◌||◌, ◌&&◌, not, String, Option, none, some, List, [], ◌∷◌, map,
  any, str_eq,
}
use spot_instance_training_o.Api.Meta.{label, is_deleting}
use spot_instance_training_o.Api.Training.{SpotInstanceJob}
use spot_instance_training_o.Api.Kube.{
  Checkpoint, CheckpointStatus, Entry, mapping, scalar, Value, text, Job,
}
use spot_instance_training_o.Cluster.Errors.{Result, ok, err}
use spot_instance_training_o.Cluster.Prog.{Prog, pure, branch, ◌>>=◌, ask}
use spot_instance_training_o.Cluster.Env.{Env}
use spot_instance_training_o.TrainingController.Names.{owned_by, is_updated, is_in}
use spot_instance_training_o.TrainingController.Checkpoints.{is_completed_phase}
use spot_instance_training_o.TrainingController.Restore.{
  Fields, text_field, update_job_with_checkpoint,
}

-- A slice that is missing is an empty one.
entries : Option (List Entry) → List Entry
entries none = []
entries (some l) = l

container_fields : Entry → Fields
container_fields (mapping m) = m
container_fields scalar = []

-- `m[k].(string)`, the empty text where it is missing
text_or_empty : Option String → String
text_or_empty none = ""
text_or_empty (some s) = s

-- A built image, in the format of a container.
image_fields : Entry → Fields
unfolding text_field text_or_empty
image_fields (mapping m) =
    ("name", text (text_or_empty (text_field "containerName" m)))
    ∷ ("image", text (text_or_empty (text_field "imageName" m)))
    ∷ []
image_fields scalar = []

-- The containers, or else the built images.
containers_or : List Entry → List Entry → List Fields
unfolding container_fields image_fields
containers_or [] images = map image_fields images
containers_or (c ∷ cs) images = map container_fields (c ∷ cs)

completed_containers : Option String → CheckpointStatus → List Fields
unfolding entries containers_or
completed_containers none status = []
completed_containers (some phase) status =
    if is_completed_phase phase
    then containers_or (entries status.containers) (entries status.built_images)
    else []

-- What a checkpoint offers: nothing, where it is passed over.
unfoldable pub checkpoint_containers : Option CheckpointStatus → List Fields
unfolding completed_containers
checkpoint_containers none = []
checkpoint_containers (some status) = completed_containers status.phase status

-- The job that the checkpoint was made of, as far as its label tells.
unfoldable pub source_job : Checkpoint → String
unfolding text_or_empty label
source_job cp = text_or_empty (label "training.dcnlab.com/job" cp.meta.labels)

-- `checkpointSourceJob != "" && jobNameToUpdate == checkpointSourceJob`
abbrev pub is_source : Checkpoint → String → Bool
is_source cp name = not (str_eq (source_job cp) "") && str_eq name (source_job cp)

module _ {C S W : Type 0} (env : Env C S W) (sj : SpotInstanceJob) where
  -- What was found of a job: whether it now counts as processed.
  unfoldable pub restore_found : List Fields → String → Result Job → Prog W Bool
  restore_found containers name (err e) = pure false
  restore_found containers name (ok job) = branch (is_updated job) (pure true) (
      branch (is_deleting job.meta) (pure false) (do
        updated ← update_job_with_checkpoint env sj name containers
        pure (elim updated [ err e ↦ false | ok _ ↦ true ])))

  -- One job of the inner loop.
  unfoldable pub restore_one :
      Checkpoint → List Fields → String → List String → Prog W (List String)
  unfolding restore_found
  restore_one cp containers name processed = branch (is_source cp name) (pure processed) (
      branch (is_in processed name) (pure processed) (do
        found ← ask (env.client.get_job sj.meta.namespace name)
        now_processed ← restore_found containers name found
        pure (if now_processed then name ∷ processed else processed)))

  -- The inner loop, over the names in the order of the range.
  unfoldable pub restore_each :
      Checkpoint → List Fields → List String → List String → Prog W (List String)
  restore_each cp containers [] processed = pure processed
  restore_each cp containers (name ∷ names) processed = do
    processed' ← restore_one cp containers name processed
    restore_each cp containers names processed'

  -- `range` is the order in which Go ranges over the map, which may differ from time to time.
  module _ (range : List String → W → List String × W) (jobs_to_update : List String) where
    unfoldable pub restore_from : Checkpoint → List Fields → List String → Prog W (List String)
    restore_from cp [] processed = pure processed
    restore_from cp (c ∷ cs) processed = do
      names ← ask (range jobs_to_update)
      restore_each cp (c ∷ cs) names processed

    -- The loop over the checkpoints.
    unfoldable pub process_checkpoints : List Checkpoint → List String → Prog W (Result (Unit {0}))
    unfolding restore_from
    process_checkpoints [] processed = pure (ok tt)
    process_checkpoints (cp ∷ cps) processed = do
      processed' ← restore_from cp (checkpoint_containers cp.status) processed
      process_checkpoints cps processed'

    unfoldable pub process_completed_checkpoints : Prog W (Result (Unit {0}))
    process_completed_checkpoints = do
      listed ← ask (env.client.list_checkpoints sj.meta.namespace (owned_by sj))
      elim listed [
        | err e ↦ pure (err e)
        | ok cps ↦ elim jobs_to_update [ [] ↦ pure (ok tt) | _ ∷ _ ↦ process_checkpoints cps [] ]
      ]
