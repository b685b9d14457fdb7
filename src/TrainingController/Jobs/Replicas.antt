-- ===== src/TrainingController/Jobs/Replicas.antt =====
-- The loop of `reconcileJobReplicas`.
use spot_instance_training_o.Base.{
  ℕ, zero, suc, ◌+◌, ◌≤◌, ◌<◌, ◌≡◌, refl, inl, inr, true, false, ◌&&◌, Option, some, List, [], ◌∷◌,
  ℤ, pos, ltb_ℤ, add32, double32, i32_max, add32_exact, arith, decimal, decimal_ℤ, String,
  Bool-cases, Option-cases, ◌⊎◌,
}
use spot_instance_training_o.Api.Meta.{ObjectMeta, label}
use spot_instance_training_o.Api.Instance.{ProvisionedInstance}
use spot_instance_training_o.Api.Training.{SpotInstanceJob}
use spot_instance_training_o.Api.Kube.{Job}
use spot_instance_training_o.Cluster.Errors.{Result, ok, err, Result-cases}
use spot_instance_training_o.Cluster.Events.{Trace, job_created}
use spot_instance_training_o.Cluster.Env.{Env}
use spot_instance_training_o.Cluster.Hoare.{
  Delivers, Preserves, Ensures-pure, Ensures-act, Ensures-bind, Ensures-branch, Keeps-then,
  Keeps-ask, Keeps-pure, Triple-weaken, Triple-either,
}
use spot_instance_training_o.TrainingController.Names.{job_replica_label}
use spot_instance_training_o.TrainingController.Indices.{is_taken, skip_taken, take_index}
use spot_instance_training_o.TrainingController.Indices.Search.{Found, skip_taken-Found}
use spot_instance_training_o.TrainingController.Jobs.{
  new_job, has_valid_job, has_job, create_job_replica, create_replicas,
}
use spot_instance_training_o.TrainingController.Jobs.Attempts.{
  OwnerLaw, job_labels, jobs_made, Attempts, Attempts-skip, Attempts-skip_taken, Attempts-refused,
  Attempts-made, Attempts-none,
}

label-new_job :
    (sj : SpotInstanceJob) (name : String) (j : ℕ) (instances : Result (List ProvisionedInstance))
    → label job_replica_label (new_job sj name (pos j) instances).meta.labels ≡ some (decimal j)
unfolding new_job label decimal_ℤ
label-new_job sj name j instances = refl

-- The jobs that were asked for, and how many of them were created.
abbrev pub Made : List (Option String) → ℕ → Trace → Type 0
Made old made t = (job_labels t ≡ old) × (jobs_made t ≡ made)

-- A job that is refused may have been refused before it was asked for.
abbrev AfterCreate : ℕ → List (Option String) → ℕ → Result Job → Trace → Type 0
AfterCreate j old made (ok job) t = Made (some (decimal j) ∷ old) (made + 1) t
AfterCreate j old made (err e) t = Made old made t ⊎ Made (some (decimal j) ∷ old) made t

asked :
    (sj : SpotInstanceJob) (name : String) (j : ℕ) (instances : Result (List ProvisionedInstance))
    (m' : ObjectMeta) (old : List (Option String)) (made : ℕ) (a : Result Job) (t : Trace)
    → m'.labels ≡ (new_job sj name (pos j) instances).meta.labels
    → Made old made t
    → AfterCreate j old made a
        (job_created (record (new_job sj name (pos j) instances) { meta = m' }) a ∷ t)
asked sj name j instances m' old made (ok job) t kept h =
    (rw (kept, h.0, label-new_job sj name j instances) refl, omega (arith, h.1))
asked sj name j instances m' old made (err e) t kept h =
    inr (rw (kept, h.0, label-new_job sj name j instances) refl, omega (arith, h.1))

module _ {C S W : Type 0} (env : Env C S W) where
  has_valid_job-Keeps :
      (P : Trace → Type 0) (jobs : List Job) → Preserves ⊥ P (has_valid_job env jobs)
  unfolding has_valid_job
  has_valid_job-Keeps P [] = Keeps-pure _
  has_valid_job-Keeps P (job ∷ jobs) = elim (Option-cases job.meta.deletion_timestamp) [
    | inl stands ↦ rw stands (Ensures-branch (λ _. Keeps-pure _) (λ _. has_valid_job-Keeps P jobs))
    | inr (t, leaving) ↦ rw leaving (
        Keeps-then (Keeps-ask _)
          (λ now. Ensures-branch (λ _. Keeps-pure _) (λ _. has_valid_job-Keeps P jobs)))
  ]

  has_job-Keeps :
      (P : Trace → Type 0) (sj : SpotInstanceJob) (i : ℤ) → Preserves ⊥ P (has_job env sj i)
  unfolding has_job
  has_job-Keeps P sj i =
      Keeps-then (Keeps-ask _) elim [ err e ↦ Keeps-pure _ | ok jobs ↦ has_valid_job-Keeps P jobs ]

  module _ (law : OwnerLaw env.util) (sj : SpotInstanceJob) where
    create_job_replica-AfterCreate :
        (name : String) (j : ℕ) (old : List (Option String)) (made : ℕ)
        → Delivers (Made old made) (create_job_replica env sj name (pos j)) (AfterCreate j old made)
    unfolding create_job_replica
    create_job_replica-AfterCreate name j old made = Keeps-then (Keeps-ask _) λ instances.
        let meta = (new_job sj name (pos j) instances).meta in
        elim (Result-cases (env.util.set_controller_reference sj.meta meta)) [
          | inr (e, refused) ↦ rw refused (Ensures-pure _ (λ t h. inl h))
          | inl (m', owned) ↦ rw owned (
              Ensures-act _ _ (λ a t h.
                asked sj name j instances m' old made a t (law.labels sj.meta meta m' owned) h))
        ]

    module _ (desired : ℤ) (n l : ℕ) (limit : double32 desired ≡ pos l) (small : l ≤ i32_max)
        (few : n ≤ i32_max) where
      abbrev Attempting : ℕ → ℕ → ℕ → ℕ → ℤ → List ℤ → List (Option String) → ℕ → Type 0
      Attempting fuel i k c skipped m old made =
          Delivers (Made old made)
            (create_replicas env sj desired (pos n) fuel (pos i) (pos c) skipped m)
            (λ _. Attempts l m i k old made)

      create_replicas-round :
          (fuel i j k c : ℕ) (skipped : ℤ) (m : List ℤ) (old : List (Option String)) (made : ℕ)
          → skip_taken (pos l) m (pos i) ≡ some (pos j)
          → Found l m i j
          → c + 1 ≤ n
          → (ltb_ℤ (pos c) (pos n) && ltb_ℤ (pos i) (pos l)) ≡ true
          → (j < l
              → (k' c' : ℕ) (skipped' : ℤ) (m' : List ℤ) (old' : List (Option String)) (made' : ℕ)
              → c' + k' ≡ c + suc k
              → Attempting fuel (j + 1) k' c' skipped' m' old' made')
          → Attempting (suc fuel) i (suc k) c skipped m old made
      unfolding create_replicas
      create_replicas-round fuel i j k c skipped m old made e f more go again =
          let next = add32_exact j 1 in
          rw limit (
            Ensures-branch
              (λ _.
                rw (e, limit)
                  (Ensures-branch
                    (λ past. Ensures-pure _ (λ t h. Attempts-none l m i (suc k) old made t h.0 h.1))
                    (λ below.
                      let lt : j < l = ground arith in
                      let is_free : is_taken (pos j) m ≡ false = ground (arith, f.free) in
                      Keeps-then (has_job-Keeps (Made old made) sj (pos j)) (λ valid.
                        Ensures-branch
                          (λ _. rw (next (omega arith)) (
                            Triple-weaken
                              (λ a t. Attempts-skip_taken l m i j (suc k) old made t f.from)
                              (again lt (suc k) c skipped (take_index (pos j) m) old made refl)))
                          (λ _. Keeps-then (Keeps-ask _) (λ instances.
                            Ensures-branch
                              (λ _.
                                Ensures-branch
                                  (λ _.
                                    Ensures-pure _
                                      (λ t h. Attempts-none l m i (suc k) old made t h.0 h.1))
                                  (λ _. rw (next (omega arith)) (
                                    Triple-weaken
                                      (λ a t. Attempts-skip l m i j (suc k) old made t f.from)
                                      (again lt (suc k) c (add32 skipped (pos 1)) m old made
                                        refl))))
                              (λ _. Keeps-then (Keeps-ask _) (λ now.
                                Ensures-bind (create_job_replica-AfterCreate _ j old made) elim [
                                  | ok job ↦
                                      rw (next (omega arith), add32_exact c 1 (omega arith))
                                        (Triple-weaken
                                          (λ a t.
                                            Attempts-made l m i j k old made t f.from lt is_free)
                                          (again lt k (c + 1) (pos 0) (take_index (pos j) m)
                                            (some (decimal j) ∷ old) (made + 1) (omega arith)))
                                  | err bad ↦ rw (next (omega arith)) (
                                      Triple-either
                                        (Triple-weaken
                                          (λ a t. Attempts-skip l m i j (suc k) old made t f.from)
                                          (again lt (suc k) c skipped m old made refl))
                                        (Triple-weaken
                                          (λ a t.
                                            Attempts-refused l m i j (suc k) old made t f.from lt
                                              is_free)
                                          (again lt (suc k) c skipped m (some (decimal j) ∷ old)
                                            made refl)))
                                ]))))))))
              (λ stop. absurd (cc (go, stop))))

      -- The index that the search finds, and the round at it.
      further :
          (fuel i k c : ℕ) (skipped : ℤ) (m : List ℤ) (old : List (Option String)) (made : ℕ)
          → l < i + suc fuel
          → c + k ≡ n
          → (ltb_ℤ (pos c) (pos n) && ltb_ℤ (pos i) (pos l)) ≡ true
          → ((k' c' : ℕ) (skipped' : ℤ) (m' : List ℤ) (old' : List (Option String)) (made' j : ℕ)
              → i ≤ j
              → j < l
              → c' + k' ≡ c + k
              → Attempting fuel (j + 1) k' c' skipped' m' old' made')
          → Attempting (suc fuel) i k c skipped m old made
      further fuel i zero c skipped m old made hf hn go again = absurd (ground arith)
      further fuel i (suc k) c skipped m old made hf hn go again =
          let below : i < l = ground arith in
          let (j, e, f) = skip_taken-Found l m i small (omega arith) in
          create_replicas-round fuel i j k c skipped m old made e f (omega arith) go
            (λ lt k' c' skipped' m' old' made' same.
              again k' c' skipped' m' old' made' j f.from lt same)

      pub create_replicas-Attempts :
          (fuel i k c : ℕ) (skipped : ℤ) (m : List ℤ) (old : List (Option String)) (made : ℕ)
          → l < i + fuel
          → i ≤ l
          → c + k ≡ n
          → Attempting fuel i k c skipped m old made
      unfolding create_replicas
      create_replicas-Attempts zero i k c skipped m old made hf hi hn = absurd (omega arith)
      create_replicas-Attempts (suc fuel) i k c skipped m old made hf hi hn =
          elim (Bool-cases (ltb_ℤ (pos c) (pos n) && ltb_ℤ (pos i) (pos l))) [
            | inr stop ↦ rw limit (
                Ensures-branch (λ go. absurd (cc (go, stop)))
                  (λ _. Ensures-pure _ (λ t h. Attempts-none l m i k old made t h.0 h.1)))
            | inl go ↦
                further fuel i k c skipped m old made hf hn go
                  (λ k' c' skipped' m' old' made' j hj lt same.
                    create_replicas-Attempts fuel (j + 1) k' c' skipped' m' old' made' (omega arith)
                      (omega arith) (omega arith))
          ]
