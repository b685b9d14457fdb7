-- ===== src/TrainingController/Preemption/Kept.antt =====
-- `handlePreemption`: what it keeps, if writes about jobs of chosen names do.
use spot_instance_training_o.Base.{
  ℕ, suc, ◌+◌, ◌≡◌, refl, Bool, true, false, String, Option, none, some, List, [], ◌∷◌, All, count,
  arith,
}
use spot_instance_training_o.Api.Instance.{ProvisionedInstance}
use spot_instance_training_o.Api.Training.{SpotInstanceJob}
use spot_instance_training_o.Api.Kube.{Pod}
use spot_instance_training_o.Cluster.Errors.{ok, err}
use spot_instance_training_o.Cluster.Events.{Trace, restore_started}
use spot_instance_training_o.Cluster.Env.{Env}
use spot_instance_training_o.Cluster.Client.{Util}
use spot_instance_training_o.Cluster.Hoare.{
  Delivers, Preserves, Ensures-pure, Ensures-act, Ensures-bind, Ensures-branch, Keeps-then,
  Keeps-pure, Keeps-ask, Triple-of, Triple-before, Triple-weaken,
}
use spot_instance_training_o.TrainingController.Names.{is_preempted}
use spot_instance_training_o.TrainingController.Jobs.Attempts.{OwnerLaw}
use spot_instance_training_o.TrainingController.Checkpoints.{
  has_completed_checkpoint, has_restored_jobs,
}
use spot_instance_training_o.TrainingController.Pods.{job_of_pod}
use spot_instance_training_o.TrainingController.Restore.Kept.{GetLaw, JobRules}
use spot_instance_training_o.TrainingController.Completed.Kept.{
  RangeLaw, process_completed_checkpoints-Keeps,
}
use spot_instance_training_o.TrainingController.Backup.Asked.{
  AskRules, first_alive-Keeps, create_checkpoint_for_job-Asks,
}
use spot_instance_training_o.TrainingController.Preemption.{
  wants_checkpoint, checkpoint_job_of, checkpoint_alive, start_restores, restore_jobs,
  handle_with_others, handle_preempted, handle_each,
}
use spot_instance_training_o.TrainingController.Preemption.Chosen.{
  Chosen, Covers, find_jobs_on_node-Chosen, jobs_of_preempted-Chosen,
}

-- What each write of `handlePreemption` keeps; `k` counts the checkpoints that may have been asked for.
pub record WriteRules (u : Util) (sj : SpotInstanceJob) (φ : String → Bool) (P : ℕ → Trace → Type 0)
    : Type 0 where
  pub jobs : (k : ℕ) → JobRules u sj φ (P k)
  pub checkpoints : AskRules sj P
  pub restores :
      (k : ℕ) (name : String) (t : Trace)
      → φ name ≡ true
      → P k t
      → P k (restore_started sj name ∷ t)

count_gone :
    (p : ProvisionedInstance → Bool) (k : ℕ) (pi : ProvisionedInstance)
    (pis : List ProvisionedInstance)
    → p pi ≡ true
    → k + count p (pi ∷ pis) ≡ suc k + count p pis
count_gone p k pi pis h = rw h (omega arith)

count_stays :
    (p : ProvisionedInstance → Bool) (k : ℕ) (pi : ProvisionedInstance)
    (pis : List ProvisionedInstance)
    → p pi ≡ false
    → k + count p (pi ∷ pis) ≡ k + count p pis
count_stays p k pi pis h = rw h refl

count_none : (p : ProvisionedInstance → Bool) (k : ℕ) → k + count p [] ≡ k
count_none p k = omega arith

module _ {C S W : Type 0} (env : Env C S W) (range : List String → W → List String × W)
    (sj : SpotInstanceJob) (ranges : RangeLaw range) (φ : String → Bool) (gets : GetLaw env.client)
    (law : OwnerLaw env.util) (P : ℕ → Trace → Type 0) (rules : WriteRules env.util sj φ P) where
  wants_checkpoint-Keeps : (Q : Trace → Type 0) → Preserves ⊥ Q (wants_checkpoint env range sj)
  unfolding wants_checkpoint has_completed_checkpoint has_restored_jobs
  wants_checkpoint-Keeps Q =
      Keeps-then
        (Keeps-then (Keeps-ask _)
          elim [ err e ↦ Keeps-pure _ | ok cps ↦ Keeps-then (Keeps-ask _) (λ now. Keeps-pure _) ])
        elim [
          | err e ↦ Keeps-pure _
          | ok known ↦
              Ensures-branch
                (λ _. Keeps-then (Keeps-then (Keeps-ask _) (λ l. Keeps-pure _)) (λ r. Keeps-pure _))
                (λ _. Keeps-pure _)
        ]

  checkpoint_job_of-Asks :
      (k : ℕ) (o : Option Pod) → Delivers (P k) (checkpoint_job_of env range sj o) (λ _. P (suc k))
  unfolding checkpoint_job_of
  checkpoint_job_of-Asks k none = Ensures-pure _ (λ t p. rules.checkpoints.more k t p)
  checkpoint_job_of-Asks k (some pod) =
      Ensures-branch (λ _. Ensures-pure _ (λ t p. rules.checkpoints.more k t p))
        (λ _.
          Ensures-bind
            (create_checkpoint_for_job-Asks env sj (job_of_pod pod) P rules.checkpoints k)
            (λ r. Keeps-pure _))

  checkpoint_alive-Asks :
      (k : ℕ) (pi : ProvisionedInstance)
      → Delivers (P k) (checkpoint_alive env range sj pi) (λ _. P (suc k))
  unfolding checkpoint_alive
  checkpoint_alive-Asks k pi = Keeps-then (Keeps-ask _) elim [
    | err e ↦ Ensures-pure _ (λ t p. rules.checkpoints.more k t p)
    | ok pods ↦
        Keeps-then (first_alive-Keeps env (P k) pi.status.node_name pods) (checkpoint_job_of-Asks k)
  ]

  start_restores-Keeps :
      (k : ℕ) (names : List String)
      → All (λ n. φ n ≡ true) names
      → Preserves ⊥ (P k) (start_restores env range sj names)
  unfolding start_restores
  start_restores-Keeps k [] h = Keeps-pure _
  start_restores-Keeps k (n ∷ names) h =
      Keeps-then (Ensures-act _ _ (λ a t p. rules.restores k n t h.0 p))
        (λ _. start_restores-Keeps k names h.1)

  restore_jobs-Keeps :
      (k : ℕ) (pi : ProvisionedInstance)
      → Covers env sj φ pi
      → Preserves ⊥ (P k) (restore_jobs env range sj pi)
  unfolding restore_jobs
  restore_jobs-Keeps k pi covers =
      Ensures-branch (λ _. Keeps-pure _)
        (λ _. Ensures-bind (find_jobs_on_node-Chosen env range sj ranges φ (P k) pi covers) elim [
          | err e ↦ Ensures-pure _ (λ t h. h.1)
          | ok names ↦
              Triple-of (λ t h. h.0)
                (λ found. Triple-before (λ t h. h.1) (start_restores-Keeps k names found))
        ])

  handle_with_others-Asks :
      (k : ℕ) (pi : ProvisionedInstance) (m : List String)
      → Chosen φ m
      → Delivers (P k) (handle_with_others env range sj pi m) (λ _. P (suc k))
  unfolding handle_with_others
  handle_with_others-Asks k pi m c =
      Keeps-then
        (process_completed_checkpoints-Keeps env sj range φ (P k) m gets law ranges (rules.jobs k)
          c)
        λ r. Keeps-then (wants_checkpoint-Keeps (P k)) λ wants.
          Ensures-branch (λ _. checkpoint_alive-Asks k pi)
            (λ _. Ensures-pure _ (λ t p. rules.checkpoints.more k t p))

  handle_preempted-Asks :
      (k : ℕ) (items : List ProvisionedInstance) (pi : ProvisionedInstance) (m : List String)
      → Covers env sj φ pi
      → Chosen φ m
      → Delivers
          (P k)
          (handle_preempted env range sj items pi m)
          (λ m' t. Chosen φ m' × P (suc k) t)
  unfolding handle_preempted
  handle_preempted-Asks k items pi m covers c =
      Ensures-bind (jobs_of_preempted-Chosen env range sj ranges φ (P k) pi m covers c) λ m'.
        Triple-of (λ t h. h.0)
          (λ c'.
            Triple-before (λ t h. h.1)
              (Ensures-bind {Q = λ _. P (suc k)}
                (Ensures-branch (λ _. handle_with_others-Asks k pi m' c')
                  (λ _.
                    Triple-weaken (λ a t p. rules.checkpoints.more k t p)
                      (restore_jobs-Keeps k pi covers)))
                (λ _. Ensures-pure _ (λ t p. (c', p)))))

  pub handle_each-Asks :
      (k : ℕ) (items pis : List ProvisionedInstance) (m : List String)
      → All (λ pi. is_preempted pi ≡ true → Covers env sj φ pi) pis
      → Chosen φ m
      → Delivers (P k) (handle_each env range sj items pis m) (λ _. P (k + count is_preempted pis))
  unfolding handle_each
  handle_each-Asks k items [] m h c = Ensures-pure _ (λ t p. rw (count_none is_preempted k) p)
  handle_each-Asks k items (pi ∷ pis) m h c =
      Ensures-branch
        (λ gone. Ensures-bind (handle_preempted-Asks k items pi m (h.0 gone) c) λ m'.
          Triple-of (λ t h. h.0)
            (λ c'.
              Triple-before (λ t h. h.1)
                (Triple-weaken (λ a t p. rw (count_gone is_preempted k pi pis gone) p)
                  (handle_each-Asks (suc k) items pis m' h.1 c'))))
        (λ stays.
          Triple-weaken (λ a t p. rw (count_stays is_preempted k pi pis stays) p)
            (handle_each-Asks k items pis m h.1 c))
