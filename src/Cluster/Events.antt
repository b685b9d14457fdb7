-- ===== src/Cluster/Events.antt =====
-- The calls that change the cluster or the cloud, each with the answer that it got. A trace lists
-- them, the latest first. `restore_started` is the start of a goroutine that runs
-- `recreateJobFromLatestCheckpoint` for a job of the name. `deletion_ended` is the end of the wait for a
-- deletion of a VM that was accepted, with its project, zone and name and the result of the wait. `ssh_dialled` and `command_run` are calls over
-- SSH, to an address, with the error if there was one. `process_step` is a step of the process set-up.
use spot_instance_training_o.Base.{String, List, Option}
use spot_instance_training_o.Api.Instance.{ProvisionedInstance}
use spot_instance_training_o.Api.Training.{SpotInstanceJob}
use spot_instance_training_o.Api.Kube.{Job, Node, Checkpoint, NewCheckpoint}
use spot_instance_training_o.Api.Compute.{Instance, Operation}
use spot_instance_training_o.Cluster.Errors.{Result, Error}
use spot_instance_training_o.Cluster.Steps.{Step}

pub data Event : Type 0 where
  instance_updated : ProvisionedInstance → Result ProvisionedInstance → Event
  instance_status_updated : ProvisionedInstance → Result ProvisionedInstance → Event
  instance_created : ProvisionedInstance → Result ProvisionedInstance → Event
  instance_deleted : ProvisionedInstance → Result (Unit {0}) → Event
  node_deleted : Node → Result (Unit {0}) → Event
  vm_inserted : String → String → Instance → Result Operation → Event
  vm_deleted : String → String → String → Result Operation → Event
  deletion_ended : String → String → String → Result (Unit {0}) → Event
  training_updated : SpotInstanceJob → Result SpotInstanceJob → Event
  training_status_updated : SpotInstanceJob → Result SpotInstanceJob → Event
  job_created : Job → Result Job → Event
  job_deleted : Job → Result (Unit {0}) → Event
  checkpoint_created : NewCheckpoint → Result (Unit {0}) → Event
  checkpoint_deleted : Checkpoint → Result (Unit {0}) → Event
  restore_started : SpotInstanceJob → String → Event
  ssh_dialled : String → Option Error → Event
  command_run : String → String → Option Error → Event
  process_step : Step → Option Error → Event

abbrev pub Trace : Type 0
Trace = List Event
