-- ===== src/TrainingController/Pods.antt =====
-- Pods and nodes: spotinstancejob_checkpoint.go, `findJobsOnNode`, and the search for a pod on a node
-- that is ready, which `createCheckpointForJob` and `handlePreemption` share.
pub mod OnNode
use spot_instance_training_o.Base.{
  Bool, false, ◌&&◌, not, String, Option, none, some, List, [], ◌∷◌, any, str_eq, if◌then◌else◌,
}
use spot_instance_training_o.Api.Meta.{label, label_or_empty}
use spot_instance_training_o.Api.Training.{SpotInstanceJob}
use spot_instance_training_o.Api.Kube.{Pod, Node}
use spot_instance_training_o.Cluster.Errors.{Result, ok, err}
use spot_instance_training_o.Cluster.Prog.{Prog, pure, branch, ◌>>=◌, ask}
use spot_instance_training_o.Cluster.Env.{Env}
use spot_instance_training_o.TrainingController.Names.{spot_instance_job_label, add_name}

-- The node has the condition `Ready` with the status `True`.
abbrev pub is_ready_node : Node → Bool
is_ready_node node = any (λ c. str_eq c.type "Ready" && str_eq c.status "True") node.conditions

-- A node that cannot be read does not count as ready.
abbrev pub found_ready : Result Node → Bool
found_ready (err e) = false
found_ready (ok node) = is_ready_node node

-- The job of a pod, by one of two labels; the empty text where it has neither.
unfoldable pub job_of_pod : Pod → String
unfolding label label_or_empty
job_of_pod pod = elim (label "job-name" pod.meta.labels) [
  | some name ↦ name
  | none ↦ label_or_empty "batch.kubernetes.io/job-name" pod.meta.labels
]

-- The pod is bound to the node and belongs to the training job.
unfoldable pub is_on_node : SpotInstanceJob → String → Pod → Bool
unfolding label_or_empty
is_on_node sj node pod =
    str_eq pod.node_name node
    && str_eq (label_or_empty spot_instance_job_label pod.meta.labels) sj.meta.name

unfoldable pub add_job : SpotInstanceJob → String → Pod → List String → List String
unfolding is_on_node job_of_pod
add_job sj node pod m =
    if is_on_node sj node pod && not (str_eq (job_of_pod pod) "")
    then add_name (job_of_pod pod) m
    else m

-- The map of the jobs that have a pod on the node.
unfoldable pub jobs_on_node : SpotInstanceJob → String → List Pod → List String → List String
unfolding add_job
jobs_on_node sj node [] m = m
jobs_on_node sj node (pod ∷ pods) m = jobs_on_node sj node pods (add_job sj node pod m)

module _ {C S W : Type 0} (env : Env C S W) where
  -- `range` is the order in which Go ranges over the map.
  unfoldable pub find_jobs_on_node :
      (List String → W → List String × W) → SpotInstanceJob → String → Prog W (Result (List String))
  find_jobs_on_node range sj node = do
    listed ← ask (env.client.list_pods sj.meta.namespace [])
    elim listed [
      | err e ↦ pure (err e)
      | ok pods ↦ do names ← ask (range (jobs_on_node sj node pods [])); pure (ok names)
    ]

  -- The first pod on a node that is ready; those on the node `skip` are passed over, if it is not
  -- empty.
  unfoldable pub first_alive : String → List Pod → Prog W (Option Pod)
  first_alive skip [] = pure none
  first_alive skip (pod ∷ pods) = branch (str_eq pod.node_name "") (first_alive skip pods) (
      branch (not (str_eq skip "") && str_eq pod.node_name skip) (first_alive skip pods) (do
        found ← ask (env.client.get_node pod.node_name)
        branch (found_ready found) (pure (some pod)) (first_alive skip pods)))
