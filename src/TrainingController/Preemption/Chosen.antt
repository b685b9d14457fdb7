-- ===== src/TrainingController/Preemption/Chosen.antt =====
-- `handlePreemption`: the jobs of the preempted instances.
use spot_instance_training_o.Base.{
  ◌≡◌, refl, Bool, true, false, ◌||◌, String, List, [], ◌∷◌, All, any, str_eq, decimal_ℤ, eq_iff,
  Bool-cases, inl, inr,
}
use spot_instance_training_o.Api.Meta.{is_deleting}
use spot_instance_training_o.Api.Instance.{ProvisionedInstance}
use spot_instance_training_o.Api.Training.{SpotInstanceJob}
use spot_instance_training_o.Api.Kube.{Job, Pod}
use spot_instance_training_o.Cluster.Errors.{Result, ok, err}
use spot_instance_training_o.Cluster.Events.{Trace}
use spot_instance_training_o.Cluster.Env.{Env}
use spot_instance_training_o.Cluster.Hoare.{
  Delivers, Ensures-pure, Ensures-ask_of, Ensures-bind, Ensures-branch, Triple-of, Triple-before,
}
use spot_instance_training_o.TrainingController.Names.{replica_of, is_updated, is_in, add_name}
use spot_instance_training_o.TrainingController.Pods.{jobs_on_node, find_jobs_on_node}
use spot_instance_training_o.TrainingController.Pods.OnNode.{
  is_pod_of, is_in-add_name, is_in-jobs_of_pods,
}
use spot_instance_training_o.TrainingController.Completed.Kept.{RangeLaw, All-map}
use spot_instance_training_o.TrainingController.Preemption.{
  index_or_none, add_replica_jobs, add_names, jobs_of_preempted,
}

-- Each name of the map passes the test.
abbrev pub Chosen : (String → Bool) → List String → Type 0
Chosen φ m = (n : String) → is_in m n ≡ true → φ n ≡ true

-- A job that is neither being deleted nor marked by an update passes the test.
abbrev pub Passes : (String → Bool) → Job → Type 0
Passes φ job = (is_deleting job.meta || is_updated job) ≡ false → φ job.meta.name ≡ true

Chosen-add_name :
    (φ : String → Bool) (name : String) (m : List String)
    → φ name ≡ true
    → Chosen φ m
    → Chosen φ (add_name name m)
Chosen-add_name φ name m h c n known = elim (Bool-cases (str_eq name n)) [
  | inl same ↦ rw (← (eq_iff name n).0 same) h
  | inr other ↦ c n (cc (is_in-add_name name n m, other, known))
]

Chosen-add_replica_jobs :
    (φ : String → Bool) (jobs : List Job) (m : List String)
    → All (Passes φ) jobs
    → Chosen φ m
    → Chosen φ (add_replica_jobs jobs m)
unfolding add_replica_jobs
Chosen-add_replica_jobs φ [] m h c = c
Chosen-add_replica_jobs φ (job ∷ jobs) m h c =
    elim (Bool-cases (is_deleting job.meta || is_updated job)) [
      | inl skip ↦ rw skip (Chosen-add_replica_jobs φ jobs m h.1 c)
      | inr stands ↦ rw stands (
          Chosen-add_replica_jobs φ jobs (add_name job.meta.name m) h.1
            (Chosen-add_name φ job.meta.name m (h.0 stands) c))
    ]

Chosen-add_names :
    (φ : String → Bool) (names m : List String)
    → All (λ n. φ n ≡ true) names
    → Chosen φ m
    → Chosen φ (add_names names m)
unfolding add_names
Chosen-add_names φ [] m h c = c
Chosen-add_names φ (n ∷ names) m h c =
    Chosen-add_names φ names (add_name n m) h.1 (Chosen-add_name φ n m h.0 c)

-- The test passes the jobs of a preempted instance: those that are listed for its replica index, and
-- those that have a pod on its node.
pub record Covers {C S W : Type 0} (env : Env C S W) (sj : SpotInstanceJob) (φ : String → Bool)
    (pi : ProvisionedInstance) : Type 0 where
  pub by_index :
      (s : W) (jobs : List Job)
      → (env.client.list_jobs sj.meta.namespace (replica_of sj (decimal_ℤ (index_or_none pi))) s).0
        ≡ ok jobs
      → All (Passes φ) jobs
  pub by_node :
      (s : W) (pods : List Pod) (name : String)
      → (env.client.list_pods sj.meta.namespace [] s).0 ≡ ok pods
      → any (is_pod_of sj pi.status.node_name name) pods ≡ true
      → φ name ≡ true

-- Each name that was found passes the test.
abbrev pub AllFound : (String → Bool) → Result (List String) → Type 0
AllFound φ (err e) = Unit
AllFound φ (ok names) = All (λ n. φ n ≡ true) names

module _ {C S W : Type 0} (env : Env C S W) (range : List String → W → List String × W)
    (sj : SpotInstanceJob) (ranges : RangeLaw range) (φ : String → Bool) where
  pub find_jobs_on_node-Chosen :
      (Q : Trace → Type 0) (pi : ProvisionedInstance)
      → Covers env sj φ pi
      → Delivers Q (find_jobs_on_node env range sj pi.status.node_name) (λ r t. AllFound φ r × Q t)
  unfolding find_jobs_on_node
  find_jobs_on_node-Chosen Q pi covers =
      Ensures-bind
        {Q = λ a t.
          ((pods : List Pod) (name : String)
            → a ≡ ok pods
            → any (is_pod_of sj pi.status.node_name name) pods ≡ true
            → φ name ≡ true)
          × Q t}
        (Ensures-ask_of _ _ (λ s pods name. covers.by_node s pods name) (λ a t h q. (h, q)))
        elim [
          | err e ↦ Ensures-pure _ (λ t h. (tt, h.1))
          | ok pods ↦
              Triple-of (λ t h. h.0)
                (λ known.
                  Triple-before (λ t h. h.1)
                    (Ensures-bind {Q = λ names t. All (λ n. φ n ≡ true) names × Q t}
                      (Ensures-ask_of (All (λ n. φ n ≡ true)) _
                        (λ s.
                          All-map _ (λ n. φ n ≡ true) _
                            (λ n h.
                              known pods n refl
                                (rw (← is_in-jobs_of_pods sj pi.status.node_name n pods) h))
                            (ranges.names (jobs_on_node sj pi.status.node_name pods []) s))
                        (λ a t h q. (h, q)))
                      (λ names. Ensures-pure _ (λ t h. h))))
        ]

  pub jobs_of_preempted-Chosen :
      (Q : Trace → Type 0) (pi : ProvisionedInstance) (m : List String)
      → Covers env sj φ pi
      → Chosen φ m
      → Delivers Q (jobs_of_preempted env range sj pi m) (λ m' t. Chosen φ m' × Q t)
  unfolding jobs_of_preempted
  jobs_of_preempted-Chosen Q pi m covers c =
      Ensures-branch
        (λ _.
          Ensures-bind {Q = λ a t. ((jobs : List Job) → a ≡ ok jobs → All (Passes φ) jobs) × Q t}
            (Ensures-ask_of (λ a. (jobs : List Job) → a ≡ ok jobs → All (Passes φ) jobs) _
              (λ s jobs listed. covers.by_index s jobs listed) (λ a t h q. (h, q)))
            elim [
              | err e ↦ Ensures-pure _ (λ t h. (c, h.1))
              | ok jobs ↦
                  Ensures-pure _ (λ t h. (Chosen-add_replica_jobs φ jobs m (h.0 jobs refl) c, h.1))
            ])
        (λ _.
          Ensures-branch (λ _. Ensures-pure _ (λ t q. (c, q)))
            (λ _. Ensures-bind (find_jobs_on_node-Chosen Q pi covers) elim [
              | err e ↦ Ensures-pure _ (λ t h. (c, h.1))
              | ok names ↦ Ensures-pure _ (λ t h. (Chosen-add_names φ names m (h.0) c, h.1))
            ]))
