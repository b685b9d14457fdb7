-- ===== src/TrainingController/Jobs/Overflow.antt =====
-- `reconcileJobReplicas`: `desiredReplicas*2` overflows from 2 ^ 30 replicas on.
use spot_instance_training_o.Base.{
  ℕ, ◌≤◌, ◌^◌, ◌≡◌, refl, false, List, ℤ, pos, ltb_ℤ, double32, sub32, to_int32, i32_max, and-false,
  arith, length, [],
}
use spot_instance_training_o.Api.Training.{SpotInstanceJob}
use spot_instance_training_o.Api.Kube.{Job}
use spot_instance_training_o.Cluster.Errors.{ok}
use spot_instance_training_o.Cluster.Events.{Trace}
use spot_instance_training_o.Cluster.Prog.{World}
use spot_instance_training_o.Cluster.Env.{Env}
use spot_instance_training_o.Cluster.Hoare.{
  Yields, Delivers, Preserves, Ensures-pure, Ensures-bind, Ensures-branch, Ensures-ask_of,
  Keeps-then, Keeps-pure, Triple-of, Triple-before, Triple-weaken,
}
use spot_instance_training_o.TrainingController.Names.{owned_by, desired_replicas}
use spot_instance_training_o.TrainingController.Jobs.Indexed.{
  job_indices-Indexed, has_pending_checkpoints-Keeps,
}
use spot_instance_training_o.TrainingController.Jobs.{
  replica_rounds, create_replicas, fill_replicas, fill_unless_pending, reconcile_job_replicas,
}

-- No index is below the limit.
overflow-false : (d : ℕ) → 2 ^ 30 ≤ d → d ≤ i32_max → ltb_ℤ (pos 0) (double32 (pos d)) ≡ false
unfolding double32
overflow-false d h k = ground arith

no_rounds : (d : ℕ) → 2 ^ 30 ≤ d → d ≤ i32_max → replica_rounds (pos d) ≡ 1
unfolding double32
no_rounds d h k = ground arith

module _ {C S W : Type 0} (env : Env C S W) (sj : SpotInstanceJob) (d : ℕ)
    (wants : desired_replicas sj ≡ pos d) (large : 2 ^ 30 ≤ d) (fits : d ≤ i32_max)
    (P : Trace → Type 0) where
  create_replicas-Keeps :
      (needed : ℤ) (taken : List ℤ)
      → Preserves ⊥ P (create_replicas env sj (pos d) needed 1 (pos 0) (pos 0) (pos 0) taken)
  unfolding create_replicas
  create_replicas-Keeps needed taken =
      Ensures-branch
        (λ below.
          absurd (cc (below, and-false (ltb_ℤ (pos 0) needed) _ (overflow-false d large fits))))
        (λ _. Keeps-pure _)

  fill_replicas-Delivers :
      (jobs : List Job) → Delivers P (fill_replicas env sj jobs) (λ r t. (r ≡ ok tt) × P t)
  unfolding fill_replicas
  fill_replicas-Delivers jobs =
      rw (fill_replicas, wants, no_rounds d large fits)
        (Keeps-then (Triple-weaken (λ m t h. h.1) (job_indices-Indexed env P jobs [])) λ taken.
          Ensures-branch
            (λ _.
              Keeps-then (create_replicas-Keeps (sub32 (pos d) (to_int32 (length taken))) taken)
                (λ _. Ensures-pure _ (λ t p. (refl, p))))
            (λ _. Ensures-pure _ (λ t p. (refl, p))))

  fill_unless_pending-Delivers :
      (jobs : List Job) → Delivers P (fill_unless_pending env sj jobs) (λ r t. (r ≡ ok tt) × P t)
  unfolding fill_unless_pending
  fill_unless_pending-Delivers jobs = Keeps-then (has_pending_checkpoints-Keeps env P sj) λ pending.
      Ensures-branch (λ _. Ensures-pure _ (λ t p. (refl, p))) (λ _. fill_replicas-Delivers jobs)

  reconcile_job_replicas-Delivers :
      (jobs : List Job)
      → ((s : W) → (env.client.list_jobs sj.meta.namespace (owned_by sj) s).0 ≡ ok jobs)
      → Delivers P (reconcile_job_replicas env sj) (λ r t. (r ≡ ok tt) × P t)
  unfolding reconcile_job_replicas
  reconcile_job_replicas-Delivers jobs listed =
      Ensures-bind {Q = λ a t. (a ≡ ok jobs) × P t}
        (Ensures-ask_of (λ a. a ≡ ok jobs) _ listed (λ a t same p. (same, p)))
        λ a.
          Triple-of (λ t h. h.0)
            (λ same. rw same (Triple-before (λ t h. h.1) (fill_unless_pending-Delivers jobs)))

-- A training job that asks for 2 ^ 30 replicas or more, as many as its `int32` field holds: where the
-- jobs can be listed, and whatever the other calls answer, `reconcileJobReplicas` returns no error and
-- writes nothing, so it creates no job at all. The limit of its loop, twice the number of replicas, is
-- negative by overflow.
pub reconcile_job_replicas-overflows :
    {C S W : Type 0} (env : Env C S W) (sj : SpotInstanceJob) (w : World W) (d : ℕ)
    (jobs : List Job)
    → desired_replicas sj ≡ pos d
    → 2 ^ 30 ≤ d
    → d ≤ i32_max
    → ((s : W) → (env.client.list_jobs sj.meta.namespace (owned_by sj) s).0 ≡ ok jobs)
    → Yields (reconcile_job_replicas env sj w) (λ r t. (r ≡ ok tt) × (t ≡ w.trace))
reconcile_job_replicas-overflows env sj w d jobs wants large fits listed =
    (reconcile_job_replicas-Delivers env sj d wants large fits (λ t. t ≡ w.trace) jobs listed).at w
      refl
