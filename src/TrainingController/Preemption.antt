-- ===== src/TrainingController/Preemption.antt =====
-- spotinstancejob_preemption.go, `handlePreemption`: what is done about the instances that are preempted.
pub mod Chosen
pub mod Kept
pub mod Touched
use spot_instance_training_o.Base.{
  ℕ, Bool, true, ◌&&◌, not, String, none, some, List, [], ◌∷◌, ℤ, pos, negsuc, ltb, ltb_ℤ, count,
  str_eq, decimal_ℤ, Option, ◌||◌, if◌then◌else◌,
}
use spot_instance_training_o.Api.Meta.{is_deleting}
use spot_instance_training_o.Api.Instance.{ProvisionedInstance}
use spot_instance_training_o.Api.Training.{SpotInstanceJob}
use spot_instance_training_o.Api.Kube.{Job, Pod}
use spot_instance_training_o.Cluster.Errors.{Result, ok, err}
use spot_instance_training_o.Cluster.Events.{restore_started}
use spot_instance_training_o.Cluster.Prog.{Prog, pure, branch, ◌>>=◌, ◌>>◌, ask, act}
use spot_instance_training_o.Cluster.Env.{Env}
use spot_instance_training_o.TrainingController.Names.{
  owned_by, replica_of, replica_index, is_preempted, is_updated, add_name,
}
use spot_instance_training_o.TrainingController.Checkpoints.{
  has_completed_checkpoint, has_restored_jobs,
}
use spot_instance_training_o.TrainingController.Completed.{process_completed_checkpoints}
use spot_instance_training_o.TrainingController.Pods.{job_of_pod, find_jobs_on_node, first_alive}
use spot_instance_training_o.TrainingController.Backup.{create_checkpoint_for_job}

-- The replica index of an instance, -1 where none can be read.
abbrev pub index_or_none : ProvisionedInstance → ℤ
index_or_none pi = elim (replica_index pi.meta.labels) [ none ↦ negsuc 0 | some i ↦ i ]

-- The jobs of the replica that are neither being deleted nor marked by an update.
unfoldable pub add_replica_jobs : List Job → List String → List String
add_replica_jobs [] m = m
add_replica_jobs (job ∷ jobs) m =
    add_replica_jobs jobs
      (if is_deleting job.meta || is_updated job then m else add_name job.meta.name m)

unfoldable pub add_names : List String → List String → List String
add_names [] m = m
add_names (name ∷ names) m = add_names names (add_name name m)

-- How many other instances run without a notice.
abbrev pub others_active : List ProvisionedInstance → ProvisionedInstance → ℕ
others_active items pi =
    count
      (λ other.
        not (str_eq other.meta.name pi.meta.name)
        && str_eq other.status.state "RUNNING"
        && not other.status.preemption_notice)
      items

module _ {C S W : Type 0} (env : Env C S W) (range : List String → W → List String × W)
    (sj : SpotInstanceJob) where
  -- `jobsToUpdate` with the jobs of a preempted instance: by its replica index, or else by its node.
  unfoldable pub jobs_of_preempted : ProvisionedInstance → List String → Prog W (List String)
  unfolding add_replica_jobs add_names
  jobs_of_preempted pi m =
      branch (not (ltb_ℤ (index_or_none pi) (pos 0)))
        (do
          listed ← ask (
              env.client.list_jobs sj.meta.namespace (replica_of sj (decimal_ℤ (index_or_none pi))))
          pure (elim listed [ err e ↦ m | ok jobs ↦ add_replica_jobs jobs m ]))
        (branch (str_eq pi.status.node_name "") (pure m) (do
          found ← find_jobs_on_node env range sj pi.status.node_name
          pure (elim found [ err e ↦ m | ok names ↦ add_names names m ])))

  -- Whether a new checkpoint is wanted: not when jobs were restored from a completed one, nor for five
  -- minutes after one was completed. A failed look is ignored.
  unfoldable pub wants_checkpoint : Prog W Bool
  wants_checkpoint = do
    completed ← has_completed_checkpoint env sj
    elim completed [
      | err e ↦ pure true
      | ok known ↦
          branch known.0
            (do
              restored ← has_restored_jobs env sj
              pure (elim restored [ err e ↦ true | ok b ↦ not b && not known.1 ]))
            (pure true)
    ]

  unfoldable pub checkpoint_job_of : Option Pod → Prog W (Unit {0})
  checkpoint_job_of none = pure tt
  checkpoint_job_of (some pod) =
      branch (str_eq (job_of_pod pod) "") (pure tt)
        (do created ← create_checkpoint_for_job env sj (job_of_pod pod); pure tt)

  -- The job of the first pod that is on a node that is ready, the preempted one left out.
  unfoldable pub checkpoint_alive : ProvisionedInstance → Prog W (Unit {0})
  checkpoint_alive pi = do
    listed ← ask (env.client.list_pods sj.meta.namespace (owned_by sj))
    elim listed [
      | err e ↦ pure tt
      | ok pods ↦ do alive ← first_alive env pi.status.node_name pods; checkpoint_job_of alive
    ]

  unfoldable pub start_restores : List String → Prog W (Unit {0})
  start_restores [] = pure tt
  start_restores (name ∷ names) = do
    act (λ s. (tt, s)) (λ _. restore_started sj name)
    start_restores names

  -- The jobs of the node are restored from the latest checkpoint, each in a goroutine.
  unfoldable pub restore_jobs : ProvisionedInstance → Prog W (Unit {0})
  restore_jobs pi = branch (str_eq pi.status.node_name "") (pure tt) (do
    found ← find_jobs_on_node env range sj pi.status.node_name
    elim found [ err e ↦ pure tt | ok names ↦ start_restores names ])

  -- Other replicas are alive.
  unfoldable pub handle_with_others : ProvisionedInstance → List String → Prog W (Unit {0})
  handle_with_others pi m = do
    processed ← process_completed_checkpoints env sj range m
    wants ← wants_checkpoint
    branch wants (checkpoint_alive pi) (pure tt)

  -- One preempted instance: `jobsToUpdate` grows.
  unfoldable pub handle_preempted :
      List ProvisionedInstance → ProvisionedInstance → List String → Prog W (List String)
  handle_preempted items pi m = do
    m' ← jobs_of_preempted pi m
    branch (ltb 0 (others_active items pi)) (handle_with_others pi m') (restore_jobs pi)
    pure m'

  -- The loop over the instances.
  unfoldable pub handle_each :
      List ProvisionedInstance → List ProvisionedInstance → List String → Prog W (Unit {0})
  handle_each items [] m = pure tt
  handle_each items (pi ∷ pis) m =
      branch (is_preempted pi) (do m' ← handle_preempted items pi m; handle_each items pis m')
        (handle_each items pis m)

  -- What follows the list of the instances.
  unfoldable pub handle_listed : Result (List ProvisionedInstance) → Prog W (Result (Unit {0}))
  handle_listed (err e) = pure (err e)
  handle_listed (ok items) = do handle_each items items []; pure (ok tt)

  unfoldable pub handle_preemption : Prog W (Result (Unit {0}))
  handle_preemption = do
    listed ← ask (env.client.list_instances sj.meta.namespace (owned_by sj))
    handle_listed listed
