-- ===== src/Lib.antt =====
-- The operator for training jobs on spot instances: its two controllers and its client of Google
-- Compute Engine. A SpotInstanceJob asks for a number of replicas. The controller of training jobs
-- (internal/controller/spotinstancejob_*.go) makes one ProvisionedInstance and one Job for each
-- replica, and replaces jobs by ones restored from checkpoints. The controller of VMs
-- (internal/controller/provisionedinstance_controller.go) turns each ProvisionedInstance into a VM, with
-- the help of internal/gcp/provisioner.go, copies the state of the VM into the object's status, and
-- deletes the VM before the object goes. The two meet only in the objects of the API server
-- (api/v1alpha1).
--
-- Modules:
--   Base                   lists, texts, decimal numbers, and `int32` with its wrap-around (Base/Int32)
--   Api                    the types of api/v1alpha1 as records, and the fields that the code uses of
--                          Kubernetes' and Compute Engine's own types (Api/Meta, Api/Kube, Api/Compute)
--   Cluster                what a controller calls: the API server's client (Cluster/Client), the cloud
--                          (Cluster/Cloud), error values (Cluster/Errors). Cluster/Prog has programs as
--                          state passing over the state of the surroundings and a trace of the writes
--                          with their answers (Cluster/Events); Cluster/Hoare has the rules to prove
--                          what a program ensures of its trace
--   Gcp/Provisioner        internal/gcp/provisioner.go, one function for each method
--   Gcp/NodeJoiner         internal/gcp/node_joiner.go, which no controller calls
--   InstanceController     provisionedinstance_controller.go: Fetch (the reads, `deleteNode`), Status
--                          (`checkAndUpdateInstanceStatus`, `updateInstanceStatus`), Provision
--                          (`provisionInstance`), Deletion (`handleDeletion`, `deleteGCPInstance`) and
--                          Reconcile (`Reconcile`)
--   TrainingController     Names (labels and predicates), Checkpoints (`hasPendingCheckpoints`,
--                          `hasCompletedCheckpoint`, `hasRestoredJobs`), Indices (the map of replica
--                          indices and the loop that looks for a free one), Instances (`reconcileProvisionedInstances`), Status
--                          (`updateStatus`, `handleDeletion`),
--                          Jobs (`reconcileJobReplicas`, `createJobReplica`, `deleteJob`), Restore
--                          (`updateJobWithCheckpoint`), Recreate (`recreateJobWithCheckpoint`), Completed
--                          (`processCompletedCheckpoints`), Pods (`findJobsOnNode`, the search for a pod on a
--                          node that is ready), Backup (`createCheckpointForJob`), Latest
--                          (`recreateJobFromLatestCheckpoint`, `waitForCheckpointAndRecreateJob`), Preemption
--                          (`handlePreemption`) and Reconcile (`Reconcile`, `fetchInstanceTemplate`)
--   System                 both controllers and the goroutines together: the worlds that they reach when
--                          each call runs to its end before the next, and (System/Overlaps) what they
--                          write when their calls overlap and are cut off
--   Manager                cmd/main.go: the flags and the options made of them (Manager/Options, which
--                          also has what both `SetupWithManager` register), and `main` as a program
--                          over controller-runtime's calls
--   Tests                  concrete surroundings and the theorems applied to them
--
-- The libraries that the code calls are parameters: every call takes the state of the surroundings and
-- returns an answer and a new state, both arbitrary, so the answers may be errors and may change from
-- call to call as others write. What a theorem needs of an answer is a hypothesis that it names. A
-- call that writes is kept in the trace, and so are the start of a goroutine and the end of the wait
-- for the deletion of a VM. The object that `Update` and `Status().Update` fill in is the one that they
-- answer with. A Go pair of a value and an error is a `Result`. A missing pointer is `none`; logging is
-- left out. Times are nanoseconds, as numbers.
--
-- Where a theorem speaks of the objects themselves, the API server keeps them: `Store`
-- (TrainingController/Instances/Scale) for instances and `JobStore` (TrainingController/Restore/Once) for
-- jobs say what a read finds of what was written, while no one else writes. TrainingController/Marks
-- says by which namespace, label and owner an object belongs to a training job.
--
-- Fuel: the loop of `waitForOperation` and the loop that creates instances have no bound in the code.
-- They take their number of rounds from `patience`, and a loop that uses it up is `none`, a call that
-- has not returned. Settling (Gcp/Waiting) says when the wait ends within it. The search for a free
-- replica index has one round for each index of the map, and one more; the loop that creates jobs has
-- one for each index below twice the number of replicas, and one more. Both always end within them.
--
-- The goroutine that `handlePreemption` starts for each job is an event, and the method that it runs
-- (`recreateJobFromLatestCheckpoint`) a program of its own, which may run at any later time. The order
-- in which Go ranges over a map is a parameter (`range`). `waitForCheckpointAndRecreateJob` and
-- `recreateJobWithCheckpoint` are modelled though nothing calls them; the loop of the first takes its
-- rounds from `patience`.
--
-- Not modelled: generated code (the deep copies of api/v1alpha1), and of cmd/main.go the parsing of
-- the flags, the logger and the registration of the schemes. The scope that `NewProvisioner` asks for
-- and the propagation policy with which `updateJobWithCheckpoint` deletes a job are constants that stand
-- in the calls, so they belong to the client.
pub mod Base
pub mod Api
pub mod Cluster
pub mod Gcp
pub mod InstanceController
pub mod TrainingController
pub mod System
pub mod Manager
pub mod Tests
