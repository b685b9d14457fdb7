-- ===== src/TrainingController/Jobs.antt =====
-- spotinstancejob_job.go: a Job for each replica, on the node of the replica's instance.
pub mod Attempts
pub mod Replicas
pub mod Indexed
pub mod Gaps
pub mod Overflow
use spot_instance_training_o.Base.{
  ℕ, zero, suc, ◌+◌, ◌*◌, ◌/◌, Bool, true, false, ◌||◌, ◌&&◌, not, String, append, Option, none,
  some, List, [], ◌∷◌, ℤ, pos, pos_part, ltb, ltb_ℤ, add32, sub32, double32, to_int32, length, find,
  str_eq, decimal, decimal_ℤ, if◌then◌else◌,
}
use spot_instance_training_o.Api.Meta.{Labels, set_label}
use spot_instance_training_o.Api.Instance.{ProvisionedInstance}
use spot_instance_training_o.Api.Training.{SpotInstanceJob}
use spot_instance_training_o.Api.Kube.{Job, PodTemplate}
use spot_instance_training_o.Cluster.Errors.{Result, ok, err, second, is_not_found}
use spot_instance_training_o.Cluster.Events.{job_created, job_deleted}
use spot_instance_training_o.Cluster.Prog.{Prog, pure, stuck, branch, ◌>>=◌, ◌>>◌, ask, act}
use spot_instance_training_o.Cluster.Env.{Env}
use spot_instance_training_o.TrainingController.Names.{
  spot_instance_job_label, job_replica_label, owned_by, replica_of, desired_replicas, replica_index,
  is_preempted, is_updated,
}
use spot_instance_training_o.TrainingController.Checkpoints.{has_pending_checkpoints}
use spot_instance_training_o.TrainingController.Indices.{take_index, skip_taken}
use spot_instance_training_o.TrainingController.Instances.{fresh_meta}

-- `time.Since(t) < 10*time.Second`
abbrev pub is_recent : ℕ → ℕ → Bool
is_recent now t = ltb now (t + 10 * second)

-- Active, succeeded, or marked by an update from a checkpoint.
abbrev pub holds_index : Job → Bool
holds_index job = ltb_ℤ (pos 0) job.active || ltb_ℤ (pos 0) job.succeeded || is_updated job

-- A job that was deleted a moment ago holds its index, whatever the index is.
take_any : Labels → List ℤ → List ℤ
take_any labels m = elim (replica_index labels) [ none ↦ m | some i ↦ take_index i m ]

-- One that stands holds an index that is not negative.
take_standing : Job → List ℤ → List ℤ
take_standing job m = elim (replica_index job.meta.labels) [
  | none ↦ m
  | some i ↦ if holds_index job && not (ltb_ℤ i (pos 0)) then take_index i m else m
]

-- Waiting: the instances of the replica are listed, and the first that is not preempted, if there is
-- one, has not joined the cluster.
unfoldable pub must_wait_for : Result (List ProvisionedInstance) → Bool
must_wait_for (err e) = false
must_wait_for (ok items) = elim (find (λ pi. not (is_preempted pi)) items) [
  | none ↦ true
  | some pi ↦ not pi.status.joined_cluster || str_eq pi.status.node_name ""
]

-- Running and joined: a pod can be bound to its node.
abbrev pub is_ready : ProvisionedInstance → Bool
is_ready pi =
    not (is_preempted pi)
    && str_eq pi.status.state "RUNNING"
    && pi.status.joined_cluster
    && not (str_eq pi.status.node_name "")

-- The pod template with the labels of the replica.
abbrev pub labelled : SpotInstanceJob → ℤ → PodTemplate → PodTemplate
labelled sj index template = record template {
  labels =
      set_label job_replica_label (decimal_ℤ index)
        (set_label spot_instance_job_label sj.meta.name template.labels);
}

bound_to : Option ProvisionedInstance → PodTemplate → PodTemplate
bound_to none template = template
bound_to (some pi) template = record template { node_name = pi.status.node_name }

-- The node of the first instance that is ready, if the instances could be listed.
placed : Result (List ProvisionedInstance) → PodTemplate → PodTemplate
unfolding bound_to
placed (err e) template = template
placed (ok items) template = bound_to (find is_ready items) template

-- The labels are written into the map of the training job's own template; each new job writes both
-- entries anew.
unfoldable pub new_job : SpotInstanceJob → String → ℤ → Result (List ProvisionedInstance) → Job
unfolding placed
new_job sj name index instances = record {
  meta = fresh_meta name sj.meta.namespace (replica_of sj (decimal_ℤ index));
  spec = record sj.spec.job_template {
    template = placed instances (labelled sj index sj.spec.job_template.template);
  };
  active = pos 0;
  succeeded = pos 0;
}

-- "{job}-replica-{index}-{seconds}"
abbrev pub job_name : SpotInstanceJob → ℤ → ℕ → String
job_name sj index now =
    append sj.meta.name
      (append "-replica-" (append (decimal_ℤ index) (append "-" (decimal (now / second)))))

-- The rounds that the loop is given: each passes another index below the limit.
abbrev pub replica_rounds : ℤ → ℕ
replica_rounds desired = suc (pos_part (double32 desired))

module _ {C S W : Type 0} (env : Env C S W) where
  -- The map of the replica indices that have jobs. The names of the jobs under update are only logged.
  unfoldable pub job_indices : List Job → List ℤ → Prog W (List ℤ)
  unfolding take_any take_standing
  job_indices [] m = pure m
  job_indices (job ∷ jobs) m = elim job.meta.deletion_timestamp [
    | none ↦ job_indices jobs (take_standing job m)
    | some t ↦ do
      now ← ask env.client.now
      job_indices jobs (if is_recent now t then take_any job.meta.labels m else m)
  ]

  -- Whether some job of the replica is valid.
  unfoldable pub has_valid_job : List Job → Prog W Bool
  has_valid_job [] = pure false
  has_valid_job (job ∷ jobs) = elim job.meta.deletion_timestamp [
    | none ↦ branch (holds_index job) (pure true) (has_valid_job jobs)
    | some t ↦ do
      now ← ask env.client.now
      branch (is_recent now t) (pure true) (has_valid_job jobs)
  ]

  -- A failed list counts as one without jobs.
  unfoldable pub has_job : SpotInstanceJob → ℤ → Prog W Bool
  unfolding has_valid_job
  has_job sj index = do
    existing ← ask (env.client.list_jobs sj.meta.namespace (replica_of sj (decimal_ℤ index)))
    elim existing [ err e ↦ pure false | ok jobs ↦ has_valid_job jobs ]

  unfoldable pub create_job_replica : SpotInstanceJob → String → ℤ → Prog W (Result Job)
  create_job_replica sj name index = do
    instances ← ask (env.client.list_instances sj.meta.namespace (replica_of sj (decimal_ℤ index)))
    let job = new_job sj name index instances
    elim (env.util.set_controller_reference sj.meta job.meta) [
      | err e ↦ pure (err e)
      | ok meta ↦
          act (env.client.create_job (record job { meta = meta }))
            (job_created (record job { meta = meta }))
    ]

  module _ (sj : SpotInstanceJob) (desired needed : ℤ) where
    -- `for created < needed && replicaIndex < desiredReplicas*2`, a unit of fuel for each round.
    unfoldable pub create_replicas : ℕ → ℤ → ℤ → ℤ → List ℤ → Prog W (Unit {0})
    create_replicas zero index created skipped taken = stuck
    create_replicas (suc fuel) index created skipped taken =
        branch (ltb_ℤ created needed && ltb_ℤ index (double32 desired))
          (elim (skip_taken (double32 desired) taken index) [
            | none ↦ stuck
            | some i ↦ branch (not (ltb_ℤ i (double32 desired))) (pure tt) (do
              valid ← has_job sj i
              branch valid
                  (create_replicas fuel (add32 i (pos 1)) created skipped (take_index i taken))
                  (do
                    instances ←
                        ask (
                          env.client.list_instances sj.meta.namespace (replica_of sj (decimal_ℤ i)))
                    branch (must_wait_for instances)
                        (branch (not (ltb_ℤ (add32 skipped (pos 1)) (double32 desired))) (pure tt) (
                          create_replicas fuel (add32 i (pos 1)) created (add32 skipped (pos 1))
                            taken))
                        (do
                          now ← ask env.client.now
                          made ← create_job_replica sj (job_name sj i now) i
                          elim made [
                            | err e ↦ create_replicas fuel (add32 i (pos 1)) created skipped taken
                            | ok _ ↦
                                create_replicas fuel (add32 i (pos 1)) (add32 created (pos 1))
                                  (pos 0) (take_index i taken)
                          ])))
          ])
          (pure tt)

  -- What follows the look for pending checkpoints.
  unfoldable pub fill_replicas : SpotInstanceJob → List Job → Prog W (Result (Unit {0}))
  fill_replicas sj jobs = do
    let desired = desired_replicas sj
    taken ← job_indices jobs []
    let active = to_int32 (length taken)
    branch (ltb_ℤ active desired)
        (do
          create_replicas sj desired (sub32 desired active) (replica_rounds desired) (pos 0) (pos 0)
              (pos 0) taken
          pure (ok tt))
        (pure (ok tt))

  -- A failed look for pending checkpoints counts as none.
  unfoldable pub fill_unless_pending : SpotInstanceJob → List Job → Prog W (Result (Unit {0}))
  fill_unless_pending sj jobs = do
    pending ← has_pending_checkpoints env sj
    branch (elim pending [ err e ↦ false | ok b ↦ b ]) (pure (ok tt)) (fill_replicas sj jobs)

  unfoldable pub reconcile_job_replicas : SpotInstanceJob → Prog W (Result (Unit {0}))
  reconcile_job_replicas sj = do
    listed ← ask (env.client.list_jobs sj.meta.namespace (owned_by sj))
    elim listed [ err e ↦ pure (err e) | ok jobs ↦ fill_unless_pending sj jobs ]

  -- `deleteJob`: a job that is gone already counts as deleted.
  unfoldable pub delete_job : String → String → Prog W (Result (Unit {0}))
  delete_job namespace name = do
    found ← ask (env.client.get_job namespace name)
    elim found [
      | err e ↦ pure (if is_not_found e then ok tt else err e)
      | ok job ↦ act (env.client.delete_job job) (job_deleted job)
    ]
