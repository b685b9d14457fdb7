-- ===== src/TrainingController/Backup/Alive.antt =====
-- `createCheckpointForJob`: when a checkpoint is asked for, and of which pod.
use spot_instance_training_o.Base.{
  ◌≡◌, refl, ap, ℕ, ◌/◌, Bool, true, false, not, String, Option, none, some, List, [], ◌∷◌, any,
  str_eq, if◌then◌else◌, Exists, inl, inr, ◌⊎◌,
}
use spot_instance_training_o.Api.Training.{SpotInstanceJob}
use spot_instance_training_o.Api.Kube.{Node, Pod, Checkpoint}
use spot_instance_training_o.Cluster.Errors.{Result, ok, err, second, is_already_exists}
use spot_instance_training_o.Cluster.Events.{Trace, checkpoint_created}
use spot_instance_training_o.Cluster.Prog.{World}
use spot_instance_training_o.Cluster.Env.{Env}
use spot_instance_training_o.Cluster.Hoare.{
  Yields, Delivers, Preserves, Ensures-pure, Ensures-act, Ensures-bind, Ensures-branch,
  Ensures-ask_of, Ensures-known, Keeps-then, Keeps-pure, Keeps-ask, Triple-before, Triple-weaken,
}
use spot_instance_training_o.TrainingController.Checkpoints.{is_pending}
use spot_instance_training_o.TrainingController.Pods.{found_ready, first_alive}
use spot_instance_training_o.TrainingController.Backup.{
  checkpoints_of, new_checkpoint, was_recreated, may_create, job_pods, create_checkpoint_of,
  checkpoint_pods, create_checkpoint_for_job,
}

-- A pod on a node that is ready.
pub record IsAlive (nodes : String → Result Node) (pod : Pod) : Type 0 where
  pub bound : str_eq pod.node_name "" ≡ false
  pub ready : found_ready (nodes pod.node_name) ≡ true

-- The pod that was found, if any, is one of the pods and alive.
abbrev pub Found : (String → Result Node) → List Pod → Option Pod → Type 0
Found nodes pods none = Unit
Found nodes pods (some pod) = IsAlive nodes pod × Exists (λ p. p ≡ pod) pods

Found-later :
    (nodes : String → Result Node) (p : Pod) (pods : List Pod) (o : Option Pod)
    → Found nodes pods o
    → Found nodes (p ∷ pods) o
Found-later nodes p pods none h = tt
Found-later nodes p pods (some pod) h = (h.0, inr h.1)

module _ {C S W : Type 0} (env : Env C S W) (nodes : String → Result Node)
    (answers : (n : String) (s : W) → (env.client.get_node n s).0 ≡ nodes n) (P : Trace → Type 0)
    (skip : String) where
  later :
      (pod : Pod) (pods : List Pod)
      → Delivers P (first_alive env skip pods) (λ o t. Found nodes pods o × P t)
      → Delivers P (first_alive env skip pods) (λ o t. Found nodes (pod ∷ pods) o × P t)
  later pod pods h = Triple-weaken (λ o t f. (Found-later nodes pod pods o f.0, f.1)) h

  pub first_alive-Found :
      (pods : List Pod) → Delivers P (first_alive env skip pods) (λ o t. Found nodes pods o × P t)
  unfolding first_alive
  first_alive-Found [] = Ensures-pure _ (λ t p. (tt, p))
  first_alive-Found (pod ∷ pods) =
      let rest = later pod pods (first_alive-Found pods) in
      Ensures-branch (λ _. rest)
        (λ bound.
          Ensures-branch (λ _. rest)
            (λ _.
              Ensures-known (λ a. a ≡ nodes pod.node_name)
                (Ensures-ask_of (λ a. a ≡ nodes pod.node_name) _ (answers pod.node_name)
                  (λ a t same p. (same, p)))
                (λ a same.
                  Ensures-branch
                    (λ ready.
                      Ensures-pure _ (λ t p.
                        ((record { bound = bound; ready = rw (← same) ready }, inl refl), p)))
                    (λ _. rest))))

-- A list that has no pending checkpoint, or that failed.
abbrev pub none_pending : Result (List Checkpoint) → Bool
none_pending (err e) = true
none_pending (ok cps) = not (any is_pending cps)

-- One of the pods that were listed by the label.
abbrev pub IsLabelled :
    {C S W : Type 0} → Env C S W → SpotInstanceJob → String → String → Pod → Type 0
IsLabelled {W} env sj key name pod =
    (s : W) × (pods : List Pod) × ((env.client.list_pods sj.meta.namespace ((key, name) ∷ []) s).0
      ≡ ok pods)
    × Exists (λ p. p ≡ pod) pods

-- A pod of the job, by either of the two labels that tell it.
abbrev pub IsPodOf : {C S W : Type 0} → Env C S W → SpotInstanceJob → String → Pod → Type 0
IsPodOf env sj name pod =
    IsLabelled env sj "job-name" name pod
    ⊎ IsLabelled env sj "batch.kubernetes.io/job-name" name pod

-- Each of the pods, where they could be listed, is one of the job.
abbrev AllOf : {C S W : Type 0} → Env C S W → SpotInstanceJob → String → Result (List Pod) → Type 0
AllOf env sj name (err e) = Unit
AllOf env sj name (ok pods) = (pod : Pod) → Exists (λ p. p ≡ pod) pods → IsPodOf env sj name pod

-- What one call adds to the writes: nothing, or one checkpoint of a pod of the job that is alive; its error is
-- returned, but for one that says that the checkpoint is there already.
pub data Backs {C S W : Type 0} (env : Env C S W) (sj : SpotInstanceJob) (name : String)
    (listed : Result (List Checkpoint)) (nodes : String → Result Node) (old : Trace)
    (r : Result (Unit {0})) (t : Trace) : Type 0 where
  skipped : t ≡ old → Backs env sj name listed nodes old r t
  created :
      (pod : Pod) (seconds : ℕ) (answer : Result (Unit {0}))
      → IsPodOf env sj name pod
      → IsAlive nodes pod
      → none_pending listed ≡ true
      → t ≡ checkpoint_created (new_checkpoint sj name pod seconds) answer ∷ old
      → r ≡ elim answer [ ok _ ↦ ok tt | err e ↦ if is_already_exists e then ok tt else err e ]
      → Backs env sj name listed nodes old r t

module _ {C S W : Type 0} (env : Env C S W) (sj : SpotInstanceJob) (name : String) where
  pub was_recreated-Keeps : (P : Trace → Type 0) → Preserves ⊥ P (was_recreated env sj name)
  unfolding was_recreated
  was_recreated-Keeps P = Keeps-then (Keeps-ask _) elim [
    | ok job ↦ Keeps-pure _
    | err e ↦
        Ensures-branch (λ _. Keeps-then (Keeps-ask _) (λ restored. Keeps-pure _))
          (λ _. Keeps-pure _)
  ]

  pub may_create-Keeps :
      (P : Trace → Type 0) (listed : Result (List Checkpoint))
      → Delivers P
          (may_create env sj name listed)
          (λ allowed t. (allowed ≡ true → none_pending listed ≡ true) × P t)
  unfolding may_create
  may_create-Keeps P (err e) = Ensures-pure _ (λ t p. ((λ _. refl), p))
  may_create-Keeps P (ok cps) =
      Ensures-branch (λ pending. Ensures-pure _ (λ t p. ((λ h. absurd (cc h)), p)))
        (λ free.
          Ensures-branch
            (λ _. Triple-weaken (λ a t p. ((λ _. rw free refl), p)) (was_recreated-Keeps P))
            (λ _. Ensures-pure _ (λ t p. ((λ _. rw free refl), p))))

  pub job_pods-Keeps : (P : Trace → Type 0) → Preserves ⊥ P (job_pods env sj name)
  unfolding job_pods
  job_pods-Keeps P = Keeps-then (Keeps-ask _) elim [ ok pods ↦ Keeps-pure _ | err e ↦ Keeps-ask _ ]

  job_pods-AllOf :
      (P : Trace → Type 0) → Delivers P (job_pods env sj name) (λ r t. AllOf env sj name r × P t)
  unfolding job_pods
  job_pods-AllOf P =
      Ensures-bind
        {Q = λ a t.
          ((s : W) × ((env.client.list_pods sj.meta.namespace (("job-name", name) ∷ []) s).0 ≡ a))
          × P t}
        (Ensures-ask_of _ _ (λ s. (s, refl)) (λ a t known p. (known, p)))
        elim [
          | ok pods ↦ Ensures-pure _ (λ t h. ((λ pod here. inl (h.0.0, pods, h.0.1, here)), h.1))
          | err e ↦
              Triple-before (λ t h. h.1)
                (Ensures-ask_of
                  (λ a.
                    (s : W) × ((env.client.list_pods sj.meta.namespace
                        (("batch.kubernetes.io/job-name", name) ∷ []) s).0
                      ≡ a))
                  _ (λ s. (s, refl)) (λ a t known p. (by_second a known, p)))
        ]
    where
      by_second :
          (a : Result (List Pod))
          → (s : W) × ((env.client.list_pods sj.meta.namespace
                (("batch.kubernetes.io/job-name", name) ∷ [])
                s).0
              ≡ a)
          → AllOf env sj name a
      by_second (err e) known = tt
      by_second (ok pods) known = λ pod here. inr (known.0, pods, known.1, here)

  module _ (listed : Result (List Checkpoint)) (nodes : String → Result Node)
      (asked : (s : W)
        → (env.client.list_checkpoints sj.meta.namespace (checkpoints_of name) s).0 ≡ listed)
      (answers : (n : String) (s : W) → (env.client.get_node n s).0 ≡ nodes n) (old : Trace) where
    create_checkpoint_of-Backs :
        (pods : List Pod) (o : Option Pod)
        → AllOf env sj name (ok pods)
        → Found nodes pods o
        → none_pending listed ≡ true
        → Delivers
            (λ t. t ≡ old)
            (create_checkpoint_of env sj name o)
            (Backs env sj name listed nodes old)
    unfolding create_checkpoint_of
    create_checkpoint_of-Backs pods none all alive free = Ensures-pure _ (λ t p. skipped p)
    create_checkpoint_of-Backs pods (some pod) all alive free = Keeps-then (Keeps-ask _) λ now.
        Ensures-bind
          {Q = λ a t. t ≡ checkpoint_created (new_checkpoint sj name pod (now / second)) a ∷ old}
          (Ensures-act _ _ (λ a t p.
            ap (λ v. checkpoint_created (new_checkpoint sj name pod (now / second)) a ∷ v) p))
          elim [
            | ok made ↦
                Ensures-pure _
                  (λ t p. created pod (now / second) (ok tt) (all pod alive.1) alive.0 free p refl)
            | err e ↦
                Ensures-pure _
                  (λ t p. created pod (now / second) (err e) (all pod alive.1) alive.0 free p refl)
          ]

    checkpoint_pods-Backs :
        (r : Result (List Pod))
        → AllOf env sj name r
        → none_pending listed ≡ true
        → Delivers
            (λ t. t ≡ old)
            (checkpoint_pods env sj name r)
            (Backs env sj name listed nodes old)
    unfolding checkpoint_pods
    checkpoint_pods-Backs (err e) all free = Ensures-pure _ (λ t p. skipped p)
    checkpoint_pods-Backs (ok pods) all free =
        Ensures-known (Found nodes pods)
          (first_alive-Found env nodes answers (λ t. t ≡ old) "" pods)
          (λ o alive. create_checkpoint_of-Backs pods o all alive free)

    create_checkpoint_for_job-Delivers :
        Delivers
          (λ t. t ≡ old)
          (create_checkpoint_for_job env sj name)
          (Backs env sj name listed nodes old)
    unfolding create_checkpoint_for_job
    create_checkpoint_for_job-Delivers =
        Ensures-known (λ a. a ≡ listed)
          (Ensures-ask_of (λ a. a ≡ listed) _ asked (λ a t same p. (same, p)))
          (λ a same. rw same (
            Ensures-known (λ allowed. allowed ≡ true → none_pending listed ≡ true)
              (may_create-Keeps (λ t. t ≡ old) listed)
              (λ allowed known.
                Ensures-branch
                  (λ yes.
                    Ensures-known (AllOf env sj name) (job_pods-AllOf (λ t. t ≡ old))
                      (λ r all. checkpoint_pods-Backs r all (known yes)))
                  (λ _. Ensures-pure _ (λ t p. skipped p)))))

-- Where the `List` of the checkpoints of the job and each `Get` of a node keep to their answers,
-- whatever the other calls answer: `createCheckpointForJob` returns. It asks for at most one
-- checkpoint, of a pod that was listed by one of the two labels that tell the job, and whose node could
-- be read and has the condition Ready; and not where the `List` shows a pending checkpoint of the job.
-- A `List` that failed is taken for one that shows none. It returns the error of the creation, but for
-- one that says that the checkpoint exists already.
pub create_checkpoint_for_job-Backs :
    {C S W : Type 0} (env : Env C S W) (sj : SpotInstanceJob) (name : String)
    (listed : Result (List Checkpoint)) (nodes : String → Result Node) (w : World W)
    → ((s : W) → (env.client.list_checkpoints sj.meta.namespace (checkpoints_of name) s).0 ≡ listed)
    → ((n : String) (s : W) → (env.client.get_node n s).0 ≡ nodes n)
    → Yields (create_checkpoint_for_job env sj name w) (Backs env sj name listed nodes w.trace)
create_checkpoint_for_job-Backs env sj name listed nodes w asked answers =
    (create_checkpoint_for_job-Delivers env sj name listed nodes asked answers w.trace).at w refl
