-- ===== src/TrainingController/Latest.antt =====
-- spotinstancejob_checkpoint.go: the restoration of a job from a checkpoint when no replica is alive
-- (`recreateJobFromLatestCheckpoint`), and the wait for a checkpoint of a job
-- (`waitForCheckpointAndRecreateJob`), which nothing calls.
pub mod Newest
pub mod Restored
use spot_instance_training_o.Base.{
  ℕ, zero, suc, Bool, true, false, String, Option, none, some, List, [], ◌∷◌, ℤ, ltb_ℤ,
  if◌then◌else◌,
}
use spot_instance_training_o.Api.Meta.{is_deleting}
use spot_instance_training_o.Api.Training.{SpotInstanceJob}
use spot_instance_training_o.Api.Kube.{Checkpoint, CheckpointStatus}
use spot_instance_training_o.Cluster.Errors.{ok, err, is_not_found}
use spot_instance_training_o.Cluster.Prog.{Prog, pure, stuck, branch, ◌>>=◌, ask}
use spot_instance_training_o.Cluster.Client.{Util}
use spot_instance_training_o.Cluster.Env.{Env}
use spot_instance_training_o.TrainingController.Names.{owned_by, is_updated}
use spot_instance_training_o.TrainingController.Restore.{Fields, update_job_with_checkpoint}
use spot_instance_training_o.TrainingController.Completed.{checkpoint_containers}
use spot_instance_training_o.TrainingController.Backup.{checkpoints_of}

-- A completion time, and the containers of the checkpoint.
abbrev pub Candidate : Type 0
Candidate = ℤ × List Fields

parsed : Util → Option String → Option ℤ
parsed u none = none
parsed u (some s) = u.parse_time s

completion : Util → Option CheckpointStatus → Option ℤ
unfolding parsed
completion u none = none
completion u (some status) = parsed u status.completion_time

with_time : Option ℤ → List Fields → Option Candidate
with_time none cs = none
with_time (some t) [] = none
with_time (some t) (c ∷ cs) = some (t, c ∷ cs)

-- A completed checkpoint with containers and a completion time that can be parsed.
unfoldable pub candidate : Util → Checkpoint → Option Candidate
unfolding completion with_time
candidate u cp = with_time (completion u cp.status) (checkpoint_containers cp.status)

-- `latestContainers == nil || completionTime.After(latestTime)`
unfoldable pub later : Option Candidate → Option Candidate → Option Candidate
later best none = best
later none (some new) = some new
later (some best) (some new) = if ltb_ℤ best.0 new.0 then some new else some best

unfoldable pub latest : Util → List Checkpoint → Option Candidate → Option Candidate
latest u [] best = best
latest u (cp ∷ cps) best = latest u cps (later best (candidate u cp))

-- The containers of the first completed checkpoint that has any.
unfoldable pub first_containers : List Checkpoint → List Fields
first_containers [] = []
first_containers (cp ∷ cps) = elim (checkpoint_containers cp.status) [
  | [] ↦ first_containers cps
  | c ∷ cs ↦ c ∷ cs
]

module _ {C S W : Type 0} (env : Env C S W) (sj : SpotInstanceJob) (name : String) where
  -- Errors are only logged.
  unfoldable pub restore_latest : Option Candidate → Prog W (Unit {0})
  restore_latest none = pure tt
  restore_latest (some best) = do
    found ← ask (env.client.get_job sj.meta.namespace name)
    elim found [
      | err e ↦ pure tt
      | ok job ↦ do updated ← update_job_with_checkpoint env sj name best.1; pure tt
    ]

  unfoldable pub recreate_job_from_latest_checkpoint : Prog W (Unit {0})
  recreate_job_from_latest_checkpoint = do
    listed ← ask (env.client.list_checkpoints sj.meta.namespace (owned_by sj))
    elim listed [ err e ↦ pure tt | ok cps ↦ restore_latest (latest env.util cps none) ]

  -- One tick of the wait with the containers of a checkpoint: whether the wait is over.
  unfoldable pub restore_waiting : List Fields → Prog W Bool
  restore_waiting containers = do
    found ← ask (env.client.get_job sj.meta.namespace name)
    elim found [
      | err e ↦ pure (is_not_found e)
      | ok job ↦ branch (is_updated job) (pure true) (
          branch (is_deleting job.meta) (pure false) (do
            updated ← update_job_with_checkpoint env sj name containers
            pure (elim updated [ err e ↦ false | ok _ ↦ true ])))
    ]

  unfoldable pub on_tick : Prog W Bool
  on_tick = do
    listed ← ask (env.client.list_checkpoints sj.meta.namespace (checkpoints_of name))
    elim listed [
      | err e ↦ pure false
      | ok cps ↦ elim (first_containers cps) [ [] ↦ pure false | c ∷ cs ↦ restore_waiting (c ∷ cs) ]
    ]

  -- The loop, a unit of fuel for each `select`.
  unfoldable pub wait_for_checkpoint : ℕ → Prog W (Unit {0})
  wait_for_checkpoint zero = stuck
  wait_for_checkpoint (suc fuel) = do
    over ← ask env.client.timed_out
    branch over (pure tt) (do done ← on_tick; branch done (pure tt) (wait_for_checkpoint fuel))

  unfoldable pub wait_for_checkpoint_and_recreate_job : Prog W (Unit {0})
  wait_for_checkpoint_and_recreate_job = wait_for_checkpoint env.patience
