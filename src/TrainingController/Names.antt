-- ===== src/TrainingController/Names.antt =====
-- The labels, annotations and predicates that the parts of the controller share.
use spot_instance_training_o.Base.{
  Bool, ◌||◌, String, Option, none, some, [], ◌∷◌, ℤ, pos, str_eq, parse_int32, List, any,
  if◌then◌else◌,
}
use spot_instance_training_o.Api.Meta.{Labels, label, has_label}
use spot_instance_training_o.Api.Instance.{ProvisionedInstance}
use spot_instance_training_o.Api.Training.{SpotInstanceJob}
use spot_instance_training_o.Api.Kube.{Job}

abbrev pub spot_instance_job_finalizer : String
spot_instance_job_finalizer = "training.dcnlab.com/finalizer"

abbrev pub job_replica_label : String
job_replica_label = "training.dcnlab.com/job-replica"

abbrev pub spot_instance_job_label : String
spot_instance_job_label = "training.dcnlab.com/spot-instance-job"

abbrev pub checkpoint_updated : String
checkpoint_updated = "training.dcnlab.com/checkpoint-updated"

-- The labels that select the objects of a training job, and those of one replica of it.
abbrev pub owned_by : SpotInstanceJob → Labels
owned_by sj = (spot_instance_job_label, sj.meta.name) ∷ []

abbrev pub replica_of : SpotInstanceJob → String → Labels
replica_of sj index = (spot_instance_job_label, sj.meta.name) ∷ (job_replica_label, index) ∷ []

-- The number of replicas, two where none is given.
abbrev pub desired_replicas : SpotInstanceJob → ℤ
desired_replicas sj = elim sj.spec.replicas [ none ↦ pos 2 | some n ↦ n ]

-- The replica index among the labels, if there is one that `ParseInt` accepts.
unfoldable pub replica_index : Labels → Option ℤ
replica_index m = elim (label job_replica_label m) [ none ↦ none | some s ↦ parse_int32 s ]

-- `PreemptionNotice || State == "TERMINATED" || State == "STOPPING"`
abbrev pub is_preempted : ProvisionedInstance → Bool
is_preempted pi =
    pi.status.preemption_notice
    || str_eq pi.status.state "TERMINATED"
    || str_eq pi.status.state "STOPPING"

-- `_, ok := job.Annotations[…]`
abbrev pub is_updated : Job → Bool
is_updated job = has_label checkpoint_updated job.meta.annotations

-- A `map[string]bool` with the value true for each of its keys: `m[name]`.
abbrev pub is_in : List String → String → Bool
is_in l name = any (λ n. str_eq n name) l

-- `m[name] = true`
abbrev pub add_name : String → List String → List String
add_name name l = if is_in l name then l else name ∷ l
