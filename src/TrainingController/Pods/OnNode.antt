-- ===== src/TrainingController/Pods/OnNode.antt =====
-- `findJobsOnNode`: which jobs it finds.
use spot_instance_training_o.Base.{
  or_swap, or-false, ◌≡◌, refl, Bool, ◌||◌, ◌&&◌, not, String, List, [], ◌∷◌, any, str_eq, eq_iff,
  Bool-cases, inl, inr, Option, some, none, false, eq_refl, arith, ◌∙◌,
}
use spot_instance_training_o.Api.Meta.{label, label_or_empty}
use spot_instance_training_o.Api.Training.{SpotInstanceJob}
use spot_instance_training_o.Api.Kube.{Pod}
use spot_instance_training_o.TrainingController.Names.{is_in, add_name}
use spot_instance_training_o.TrainingController.Pods.{job_of_pod, is_on_node, add_job, jobs_on_node}

-- A pod of the training job on the node that tells its job.
abbrev pub is_pod_of : SpotInstanceJob → String → String → Pod → Bool
is_pod_of sj node name pod =
    is_on_node sj node pod && not (str_eq (job_of_pod pod) "") && str_eq (job_of_pod pod) name

pub is_in-add_name :
    (name n : String) (m : List String) → is_in (add_name name m) n ≡ (str_eq name n || is_in m n)
is_in-add_name name n m = elim (Bool-cases (is_in m name)) [
  | inr fresh ↦ rw fresh refl
  | inl known ↦ elim (Bool-cases (str_eq name n)) [
    | inl same ↦ rw (known, same) (rw (← (eq_iff name n).0 same) known)
    | inr other ↦ rw (known, other) refl
  ]
]

is_in-add_job :
    (sj : SpotInstanceJob) (node name : String) (pod : Pod) (m : List String)
    → is_in (add_job sj node pod m) name ≡ (is_pod_of sj node name pod || is_in m name)
unfolding add_job
is_in-add_job sj node name pod m =
    elim (Bool-cases (is_on_node sj node pod && not (str_eq (job_of_pod pod) ""))) [
      | inl here ↦ rw (here, is_in-add_name (job_of_pod pod) name m) refl
      | inr not_here ↦ rw not_here refl
    ]

is_in-jobs_from :
    (sj : SpotInstanceJob) (node name : String) (pods : List Pod) (m : List String)
    → is_in (jobs_on_node sj node pods m) name ≡ (any (is_pod_of sj node name) pods || is_in m name)
unfolding jobs_on_node
is_in-jobs_from sj node name [] m = refl
is_in-jobs_from sj node name (pod ∷ pods) m =
    rw (is_in-jobs_from sj node name pods, is_in-add_job)
      (or_swap (any (is_pod_of sj node name) pods) (is_pod_of sj node name pod) (is_in m name))

-- The jobs by the tests of the code.
pub is_in-jobs_of_pods :
    (sj : SpotInstanceJob) (node name : String) (pods : List Pod)
    → is_in (jobs_on_node sj node pods []) name ≡ any (is_pod_of sj node name) pods
is_in-jobs_of_pods sj node name pods = rw (is_in-jobs_from sj node name pods []) (or-false _)

-- The text is what the pod tells as its job: the label `job-name`, or the label
-- `batch.kubernetes.io/job-name` where the pod lacks the first.
abbrev pub tells_job : Pod → String → Bool
tells_job pod name = elim (label "job-name" pod.meta.labels) [
  | some told ↦ str_eq told name
  | none ↦ elim (label "batch.kubernetes.io/job-name" pod.meta.labels) [
    | some told ↦ str_eq told name
    | none ↦ false
  ]
]

-- Bound to the node, labelled with the training job's name, and telling the job.
abbrev pub is_pod_on : SpotInstanceJob → String → String → Pod → Bool
is_pod_on sj node name pod =
    str_eq pod.node_name node
    && (elim (label "training.dcnlab.com/spot-instance-job" pod.meta.labels) [
      | some job ↦ str_eq job sj.meta.name
      | none ↦ str_eq "" sj.meta.name
    ])
    && not (str_eq name "")
    && tells_job pod name

told_and :
    (a b : Bool) (told name : String)
    → ((a && b) && not (str_eq told "") && str_eq told name)
      ≡ (a && b && not (str_eq name "") && str_eq told name)
told_and a b told name = ground (arith, eq_iff told name)

untold_and :
    (a b : Bool) (name : String)
    → ((a && b) && not (str_eq "" "") && str_eq "" name) ≡ (a && b && not (str_eq name "") && false)
untold_and a b name = ground (arith, eq_iff "" name, eq_refl "")

-- Over the texts that the three labels may have.
agree :
    (a : Bool) (mine name : String) (own first second : Option String)
    → ((a && str_eq (elim own [ none ↦ "" | some v ↦ v ]) mine)
        && not
            (str_eq (elim first [ some v ↦ v | none ↦ elim second [ none ↦ "" | some v ↦ v ] ]) "")
        && str_eq (elim first [ some v ↦ v | none ↦ elim second [ none ↦ "" | some v ↦ v ] ]) name)
      ≡ (a
          && (elim own [ some v ↦ str_eq v mine | none ↦ str_eq "" mine ])
          && not (str_eq name "")
          && (elim first [
            | some v ↦ str_eq v name
            | none ↦ elim second [ some v ↦ str_eq v name | none ↦ false ]
          ]))
agree a mine name none (some v) second = told_and a _ v name
agree a mine name (some o) (some v) second = told_and a _ v name
agree a mine name none none (some v) = told_and a _ v name
agree a mine name (some o) none (some v) = told_and a _ v name
agree a mine name none none none = untold_and a _ name
agree a mine name (some o) none none = untold_and a _ name

is_pod_of-is_pod_on :
    (sj : SpotInstanceJob) (node name : String) (pod : Pod)
    → is_pod_of sj node name pod ≡ is_pod_on sj node name pod
unfolding is_on_node job_of_pod label_or_empty
is_pod_of-is_pod_on sj node name pod =
    agree (str_eq pod.node_name node) sj.meta.name name
      (label "training.dcnlab.com/spot-instance-job" pod.meta.labels)
      (label "job-name" pod.meta.labels) (label "batch.kubernetes.io/job-name" pod.meta.labels)

any-is_pod_of :
    (sj : SpotInstanceJob) (node name : String) (pods : List Pod)
    → any (is_pod_of sj node name) pods ≡ any (is_pod_on sj node name) pods
any-is_pod_of sj node name [] = refl
any-is_pod_of sj node name (pod ∷ pods) =
    rw (is_pod_of-is_pod_on sj node name pod, any-is_pod_of sj node name pods) refl

-- The map that `findJobsOnNode` makes of the pods it has listed holds a text exactly if it is not empty
-- and is the job that some listed pod tells, which is bound to the node and has the training job's name
-- as its label `training.dcnlab.com/spot-instance-job` (a pod without that label has the empty text
-- for it). The job that a pod tells is its label `job-name`, or its label
-- `batch.kubernetes.io/job-name` where it lacks the first.
pub is_in-jobs_on_node :
    (sj : SpotInstanceJob) (node name : String) (pods : List Pod)
    → is_in (jobs_on_node sj node pods []) name ≡ any (is_pod_on sj node name) pods
is_in-jobs_on_node sj node name pods =
    is_in-jobs_of_pods sj node name pods ∙ any-is_pod_of sj node name pods
