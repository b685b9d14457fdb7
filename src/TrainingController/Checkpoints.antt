-- ===== src/TrainingController/Checkpoints.antt =====
-- spotinstancejob_checkpoint.go: what the checkpoints of a training job tell.
use spot_instance_training_o.Base.{
  ℕ, ◌+◌, ◌*◌, Bool, true, false, ◌||◌, ◌&&◌, not, String, Option, none, some, ℤ, pos, pos_part,
  neg_part, ltb, any, str_eq,
}
use spot_instance_training_o.Api.Meta.{ObjectMeta}
use spot_instance_training_o.Api.Training.{SpotInstanceJob}
use spot_instance_training_o.Api.Kube.{Checkpoint, CheckpointStatus}
use spot_instance_training_o.Cluster.Errors.{Result, ok, err, second}
use spot_instance_training_o.Cluster.Prog.{Prog, pure, ◌>>=◌, ask}
use spot_instance_training_o.Cluster.Client.{Util}
use spot_instance_training_o.Cluster.Env.{Env}
use spot_instance_training_o.TrainingController.Names.{owned_by, is_updated}

-- The phases after which nothing more happens.
abbrev pub is_terminal_phase : String → Bool
is_terminal_phase phase =
    str_eq phase "Completed"
    || str_eq phase "CompletedPodDeleted"
    || str_eq phase "CompletedWithError"
    || str_eq phase "Failed"

-- A missing phase or status counts as in progress.
pending_phase : Option String → Bool
pending_phase none = true
pending_phase (some phase) = not (is_terminal_phase phase)

pending_status : Option CheckpointStatus → Bool
unfolding pending_phase
pending_status none = true
pending_status (some status) = pending_phase status.phase

unfoldable pub is_pending : Checkpoint → Bool
unfolding pending_status
is_pending cp = pending_status cp.status

-- `phase == "Completed" || phase == "CompletedPodDeleted"`
abbrev pub is_completed_phase : String → Bool
is_completed_phase phase = str_eq phase "Completed" || str_eq phase "CompletedPodDeleted"

completed_phase : Option String → Bool
completed_phase none = false
completed_phase (some phase) = is_completed_phase phase

completed_status : Option CheckpointStatus → Bool
unfolding completed_phase
completed_status none = false
completed_status (some status) = completed_phase status.phase

-- A missing phase or status does not count as completed.
unfoldable pub is_completed : Checkpoint → Bool
unfolding completed_status
is_completed cp = completed_status cp.status

-- `recentThreshold`, five minutes
abbrev recent_threshold : ℕ
recent_threshold = 300 * second

-- `now.Sub(t) < recentThreshold`
abbrev is_within : ℕ → ℤ → Bool
is_within now t = ltb (now + neg_part t) (pos_part t + recent_threshold)

-- A time that cannot be parsed is not recent.
is_within_parsed : ℕ → Option ℤ → Bool
is_within_parsed now none = false
is_within_parsed now (some t) = is_within now t

-- The completion time, or else the time of creation, is recent.
time_is_recent : Util → ℕ → ObjectMeta → Option String → Bool
unfolding is_within_parsed
time_is_recent u now meta none = is_within now (pos meta.creation_timestamp)
time_is_recent u now meta (some s) = is_within_parsed now (u.parse_time s)

status_is_recent : Util → ℕ → ObjectMeta → Option CheckpointStatus → Bool
unfolding time_is_recent
status_is_recent u now meta none = false
status_is_recent u now meta (some status) = time_is_recent u now meta status.completion_time

-- Completed within the last five minutes.
unfoldable pub is_recently_completed : Util → ℕ → Checkpoint → Bool
unfolding is_completed status_is_recent
is_recently_completed u now cp = is_completed cp && status_is_recent u now cp.meta cp.status

module _ {C S W : Type 0} (env : Env C S W) where
  unfoldable pub has_pending_checkpoints : SpotInstanceJob → Prog W (Result Bool)
  has_pending_checkpoints sj = do
    listed ← ask (env.client.list_checkpoints sj.meta.namespace (owned_by sj))
    pure (elim listed [ err e ↦ err e | ok items ↦ ok (any is_pending items) ])

  -- Whether there is a completed checkpoint, and whether one was completed recently.
  unfoldable pub has_completed_checkpoint : SpotInstanceJob → Prog W (Result (Bool × Bool))
  has_completed_checkpoint sj = do
    listed ← ask (env.client.list_checkpoints sj.meta.namespace (owned_by sj))
    elim listed [
      | err e ↦ pure (err e)
      | ok items ↦ do
        now ← ask env.client.now
        pure (ok (any is_completed items, any (is_recently_completed env.util now) items))
    ]

  unfoldable pub has_restored_jobs : SpotInstanceJob → Prog W (Result Bool)
  has_restored_jobs sj = do
    listed ← ask (env.client.list_jobs sj.meta.namespace (owned_by sj))
    pure (elim listed [ err e ↦ err e | ok jobs ↦ ok (any is_updated jobs) ])
