-- ===== src/TrainingController/Jobs/Gaps.antt =====
-- `reconcileJobReplicas`: the jobs that are asked for.
use spot_instance_training_o.Base.{
  ℕ, ◌-◌, ◌*◌, ◌≤◌, ◌<◌, ◌≡◌, refl, ◌⊎◌, inl, inr, String, Option, List, [], ℤ, pos, length, All,
  i32_max, arith, to_int32_exact, sub32_exact, double32_exact,
}
use spot_instance_training_o.Api.Training.{SpotInstanceJob}
use spot_instance_training_o.Api.Kube.{Job}
use spot_instance_training_o.Cluster.Errors.{ok}
use spot_instance_training_o.Cluster.Events.{Trace}
use spot_instance_training_o.Cluster.Prog.{World, ◌>>=◌}
use spot_instance_training_o.Cluster.Env.{Env}
use spot_instance_training_o.Cluster.Hoare.{
  Yields, Delivers, Ensures-pure, Ensures-bind, Ensures-branch, Keeps-then, Triple-before,
  Triple-of,
}
use spot_instance_training_o.TrainingController.Names.{owned_by, desired_replicas}
use spot_instance_training_o.TrainingController.Jobs.{
  replica_rounds, fill_replicas, fill_unless_pending, reconcile_job_replicas,
}
use spot_instance_training_o.TrainingController.Jobs.Attempts.{
  OwnerLaw, Attempts, job_labels, jobs_made,
}
use spot_instance_training_o.TrainingController.Jobs.Replicas.{Made, create_replicas-Attempts}
use spot_instance_training_o.TrainingController.Jobs.Indexed.{
  IsCovered, Indexed, job_indices-Indexed, has_pending_checkpoints-Keeps,
}

-- Nothing is asked for; or the replicas that are asked for are outside a map that covers the jobs, and
-- at most as many jobs are created as the map is short of `d`.
abbrev pub Fills : ℕ → List Job → List (Option String) → ℕ → Trace → Type 0
Fills d jobs old made t =
    (Made old made t)
    ⊎ ((m : List ℤ) × All (IsCovered m) jobs × Attempts (2 * d) m 0 (d - length m) old made t)

module _ {C S W : Type 0} (env : Env C S W) (law : OwnerLaw env.util) (sj : SpotInstanceJob) (d : ℕ)
    (wants : desired_replicas sj ≡ pos d) (small : 2 * d ≤ i32_max) (old : List (Option String))
    (made : ℕ) where
  fill_replicas-Fills :
      (jobs : List Job)
      → length jobs ≤ i32_max
      → Delivers
          (Made old made)
          (fill_replicas env sj jobs)
          (λ r t. (r ≡ ok tt) × Fills d jobs old made t)
  unfolding fill_replicas
  fill_replicas-Fills jobs fits =
      Ensures-bind (job_indices-Indexed env (Made old made) jobs []) λ m.
        Triple-of (λ t h. h.0)
          λ (indexed : Indexed jobs [] m).
            let short : length m ≤ i32_max = omega (arith, indexed.small) in
            rw (wants, to_int32_exact (length m) short)
              (Ensures-branch
                (λ less.
                  let lt : length m < d = ground arith in
                  rw (sub32_exact d (length m) (omega arith) (omega arith)) (
                    Ensures-bind {Q = λ _ t. Attempts (2 * d) m 0 (d - length m) old made t}
                      (Triple-before (λ t h. h.1)
                        (create_replicas-Attempts env law sj (pos d) (d - length m) (2 * d)
                          (double32_exact d small) small (omega arith) (replica_rounds (pos d)) 0
                          (d - length m) 0 (pos 0) m old made
                          (rw (double32_exact d small) (omega arith)) (omega arith) (omega arith)))
                      (λ _. Ensures-pure _ (λ t h. (refl, inr (m, indexed.covers, h))))))
                (λ _. Ensures-pure _ (λ t h. (refl, inl h.1))))

  pub fill_unless_pending-Fills :
      (jobs : List Job)
      → length jobs ≤ i32_max
      → Delivers
          (Made old made)
          (fill_unless_pending env sj jobs)
          (λ r t. (r ≡ ok tt) × Fills d jobs old made t)
  unfolding fill_unless_pending
  fill_unless_pending-Fills jobs fits =
      Keeps-then (has_pending_checkpoints-Keeps env (Made old made) sj) λ pending.
        Ensures-branch (λ _. Ensures-pure _ (λ t h. (refl, inl h)))
          (λ _. fill_replicas-Fills jobs fits)

-- If `d` replicas are wanted, setting the owner reference leaves labels and annotations alone, `jobs`
-- are listed at the start, and twice `d` and the number of `jobs` fit an `int32`, then the call
-- succeeds, whatever is answered to its other calls. Either it asks for no job at all; or the replicas
-- of the jobs that it asks for ascend strictly, are below twice `d`, and none is the index of a job of
-- `jobs` that is not being deleted and is active, succeeded or updated, and at most as many jobs are
-- created as the map of the indices that are held is short of `d`.
pub reconcile_job_replicas-Fills :
    {C S W : Type 0} (env : Env C S W) (sj : SpotInstanceJob) (w : World W) (d : ℕ)
    (jobs : List Job) (s : W)
    → OwnerLaw env.util
    → desired_replicas sj ≡ pos d
    → 2 * d ≤ i32_max
    → env.client.list_jobs sj.meta.namespace (owned_by sj) w.state ≡ (ok jobs, s)
    → length jobs ≤ i32_max
    → Yields
        (reconcile_job_replicas env sj w)
        (λ r t. (r ≡ ok tt) × Fills d jobs (job_labels w.trace) (jobs_made w.trace) t)
unfolding reconcile_job_replicas ◌>>=◌
reconcile_job_replicas-Fills env sj w d jobs s law wants small listed fits = rw listed (
    (fill_unless_pending-Fills env law sj d wants small (job_labels w.trace) (jobs_made w.trace)
        jobs fits).at
      (record w { state = s }) (refl, refl))
