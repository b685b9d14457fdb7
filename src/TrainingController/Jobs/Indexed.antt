-- ===== src/TrainingController/Jobs/Indexed.antt =====
-- `reconcileJobReplicas`: the map of the replica indices that have jobs.
use spot_instance_training_o.Base.{
  ℕ, ◌+◌, ◌≤◌, ◌≡◌, inl, inr, Bool, true, false, not, ◌&&◌, none, some, List, [], ◌∷◌, ℤ, pos,
  ltb_ℤ, eq_ℤ_iff, length, All, arith, Option-cases, if◌then◌else◌,
}
use spot_instance_training_o.Api.Meta.{Labels}
use spot_instance_training_o.Api.Training.{SpotInstanceJob}
use spot_instance_training_o.Api.Kube.{Job}
use spot_instance_training_o.Cluster.Events.{Trace}
use spot_instance_training_o.Cluster.Env.{Env}
use spot_instance_training_o.Cluster.Hoare.{
  Delivers, Preserves, Ensures-pure, Keeps-then, Keeps-ask, Triple-weaken, keeps_rules,
}
use spot_instance_training_o.TrainingController.Names.{replica_index}
use spot_instance_training_o.TrainingController.Checkpoints.{has_pending_checkpoints}
use spot_instance_training_o.TrainingController.Indices.{is_taken, take_index}
use spot_instance_training_o.TrainingController.Indices.Search.{is_taken-take_index}
use spot_instance_training_o.TrainingController.Jobs.{
  is_recent, holds_index, take_any, take_standing, job_indices,
}

-- At most one index is new, and none is lost.
record Grows (m m' : List ℤ) : Type 0 where
  small : length m' ≤ length m + 1
  keeps : (j : ℤ) → is_taken j m ≡ true → is_taken j m' ≡ true

Grows-same : (m : List ℤ) → Grows m m
Grows-same m = record { small = omega arith; keeps = λ j h. h }

Grows-take : (i : ℤ) (m : List ℤ) → Grows m (take_index i m)
unfolding take_index
Grows-take i m = record {
  small = ground arith;
  keeps = λ j h. ground (arith, is_taken-take_index i j m);
}

Grows-if : (b : Bool) (m m' : List ℤ) → Grows m m' → Grows m (if b then m' else m)
Grows-if true m m' g = g
Grows-if false m m' g = Grows-same m

take_any-Grows : (labels : Labels) (m : List ℤ) → Grows m (take_any labels m)
unfolding take_any
take_any-Grows labels m = elim (Option-cases (replica_index labels)) [
  | inl absent ↦ rw (take_any, absent) (Grows-same m)
  | inr (i, found) ↦ rw (take_any, found) (Grows-take i m)
]

take_standing-Grows : (job : Job) (m : List ℤ) → Grows m (take_standing job m)
unfolding take_standing
take_standing-Grows job m = elim (Option-cases (replica_index job.meta.labels)) [
  | inl absent ↦ rw (take_standing, absent) (Grows-same m)
  | inr (i, found) ↦
      rw (take_standing, found)
        (Grows-if (holds_index job && not (ltb_ℤ i (pos 0))) m (take_index i m) (Grows-take i m))
]

-- A job that is not being deleted, is active, has succeeded or is marked as updated, and has a replica
-- index that is not negative: the index is taken.
abbrev pub IsCovered : List ℤ → Job → Type 0
IsCovered m job =
    (j : ℕ)
    → job.meta.deletion_timestamp ≡ none
    → holds_index job ≡ true
    → replica_index job.meta.labels ≡ some (pos j)
    → is_taken (pos j) m ≡ true

take_standing-IsCovered : (job : Job) (m : List ℤ) → IsCovered (take_standing job m) job
unfolding take_standing
take_standing-IsCovered job m j stands holds found =
    rw (take_standing, found, holds)
      (ground (arith, is_taken-take_index (pos j) (pos j) m, eq_ℤ_iff (pos j) (pos j)))

-- What the map of the indices is, started from `m₀`.
pub record Indexed (jobs : List Job) (before m : List ℤ) : Type 0 where
  pub small : length m ≤ length before + length jobs
  pub keeps : (j : ℤ) → is_taken j before ≡ true → is_taken j m ≡ true
  pub covers : All (IsCovered m) jobs

Indexed-step :
    (job : Job) (jobs : List Job) (before next m : List ℤ)
    → Grows before next
    → IsCovered next job
    → Indexed jobs next m
    → Indexed (job ∷ jobs) before m
Indexed-step job jobs before next m g c i = record {
  small = omega (arith, g.small, i.small);
  keeps = λ j h. i.keeps j (g.keeps j h);
  covers = (λ j stands holds found. i.keeps (pos j) (c j stands holds found), i.covers);
}

module _ {C S W : Type 0} (env : Env C S W) where
  pub job_indices-Indexed :
      (P : Trace → Type 0) (jobs : List Job) (before : List ℤ)
      → Delivers P (job_indices env jobs before) (λ m t. Indexed jobs before m × P t)
  unfolding job_indices
  job_indices-Indexed P [] before =
      Ensures-pure _ (λ t p. (record { small = omega arith; keeps = λ j h. h; covers = tt }, p))
  job_indices-Indexed P (job ∷ jobs) before = elim (Option-cases job.meta.deletion_timestamp) [
    | inl stands ↦
        let next = take_standing job before in
        simp stands (
          Triple-weaken
            (λ m t h. (
              Indexed-step job jobs before next m (take_standing-Grows job before)
                  (take_standing-IsCovered job before) h.0,
              h.1,
            ))
            (job_indices-Indexed P jobs next))
    | inr (at, leaving) ↦ simp leaving (
        Keeps-then (Keeps-ask _) (λ now.
          let next = if is_recent now at then take_any job.meta.labels before else before in
          Triple-weaken
            (λ m t h. (
              Indexed-step job jobs before next m
                  (Grows-if (is_recent now at) before _ (take_any-Grows job.meta.labels before))
                  (λ j stands. cc) h.0,
              h.1,
            ))
            (job_indices-Indexed P jobs next)))
  ]

  pub has_pending_checkpoints-Keeps :
      (P : Trace → Type 0) (sj : SpotInstanceJob) → Preserves ⊥ P (has_pending_checkpoints env sj)
  unfolding has_pending_checkpoints
  has_pending_checkpoints-Keeps P sj = search keeps_rules
