-- ===== src/Tests/Systems.antt =====
-- A training job that is deleted, and then its VM: both controllers run.
use spot_instance_training_o.Base.{◌≡◌, refl, some, [], ◌∷◌}
use spot_instance_training_o.Api.Meta.{label}
use spot_instance_training_o.Api.Training.{SpotInstanceJob}
use spot_instance_training_o.Cluster.Errors.{ok, finished}
use spot_instance_training_o.Cluster.Events.{
  Trace, instance_deleted, instance_updated, training_updated, vm_deleted, deletion_ended,
}
use spot_instance_training_o.Cluster.Prog.{World, ◌>>=◌}
use spot_instance_training_o.Cluster.Env.{Env}
use spot_instance_training_o.Gcp.Provisioner.{new_provisioner, delete_instance, wait_for_operation}
use spot_instance_training_o.InstanceController.Guard.{TemplateLaw}
use spot_instance_training_o.InstanceController.Fetch.{
  fetch_instance_template, fetch_gcp_credentials,
}
use spot_instance_training_o.InstanceController.Deletion.{
  without_finalizer, forgive_gone, delete_gcp_instance, release_vm, drop_finalizer, handle_deletion,
}
use spot_instance_training_o.InstanceController.Status.{delete_node_if_named}
use spot_instance_training_o.InstanceController.Reconcile.{reconcile}
use spot_instance_training_o.TrainingController.Names.{spot_instance_job_finalizer}
use spot_instance_training_o.TrainingController.Status.{
  released, delete_instances, clean_checkpoints, clean_instances, release,
}
use spot_instance_training_o.TrainingController.Status as TrainingStatus
use spot_instance_training_o.TrainingController.Reconcile as TrainingReconcile
use spot_instance_training_o.TrainingController.Restore.Kept.{GetLaw}
use spot_instance_training_o.System.{
  Reaches, here, instance_reconciled, training_reconciled, IsSafe, Reaches-IsSafe,
}
use spot_instance_training_o.System.Overlaps.{
  Overlaps, idle, whole, lost, Merges, left, right, Overlaps-IsSafe,
}
use spot_instance_training_o.Tests.Objects.{vm_of, training}
use spot_instance_training_o.Tests.Clouds.{
  env_of, accepting, start, one_place, env_of-TemplateLaw, util-NamespaceLaw, util-FinalizerLaws,
  util-OwnerLaw, in_order, in_order-RangeLaw, done,
}
use spot_instance_training_o.Tests.Departures.{leaving}

abbrev ending : SpotInstanceJob
ending = record training {
  meta = record training.meta {
    finalizers = spot_instance_job_finalizer ∷ [];
    deletion_timestamp = some 1;
  };
}

abbrev vm_env : Env (Unit {0}) (Unit {0}) (Unit {0})
vm_env = env_of leaving (leaving ∷ []) [] (ok (vm_of "bert-0" "RUNNING")) accepting

abbrev ending_env : Env (Unit {0}) (Unit {0}) (Unit {0})
ending_env = record vm_env {
  client = record vm_env.client { get_training = λ namespace name s. (ok ending, s) };
}

ending_env-GetLaw : GetLaw ending_env.client
ending_env-GetLaw = record { name = λ namespace name s job h. cc }

ending_env-TemplateLaw : TemplateLaw ending_env.client one_place
ending_env-TemplateLaw = record {
  place = (env_of-TemplateLaw leaving (leaving ∷ []) accepting).place;
}

-- The training controller deletes the instance and lets go of the job.
abbrev job_gone : World (Unit {0})
job_gone = record {
  state = tt;
  trace =
      training_updated (released ending_env ending) (ok (released ending_env ending))
      ∷ instance_deleted leaving (ok tt)
      ∷ [];
}

-- Then the controller of VMs deletes the VM and lets go of the instance.
abbrev vm_gone : World (Unit {0})
vm_gone = record {
  state = tt;
  trace =
      instance_updated (without_finalizer ending_env leaving)
        (ok (without_finalizer ending_env leaving))
      ∷ deletion_ended "lab" "europe-west4-a" "bert-0" (ok tt)
      ∷ vm_deleted "lab" "europe-west4-a" "bert-0" (ok done)
      ∷ job_gone.trace;
}

training_run :
    TrainingReconcile.reconcile ending_env in_order "default" "bert" start
    ≡ some (finished, job_gone)
unfolding ◌>>=◌ TrainingReconcile.reconcile TrainingStatus.handle_deletion clean_checkpoints
    clean_instances delete_instances release
training_run = refl

vm_run : reconcile ending_env "default" "bert-0" job_gone ≡ some (finished, vm_gone)
unfolding ◌>>=◌ reconcile handle_deletion release_vm delete_gcp_instance drop_finalizer forgive_gone
    fetch_instance_template fetch_gcp_credentials label new_provisioner delete_instance
    wait_for_operation delete_node_if_named
vm_run = refl

vm_gone-Reaches : Reaches ending_env in_order start vm_gone
vm_gone-Reaches =
    instance_reconciled "default" "bert-0" finished
      (training_reconciled "default" "bert" finished here training_run) vm_run

Reaches-IsSafe_example : IsSafe ending_env.util one_place vm_gone.trace
Reaches-IsSafe_example =
    Reaches-IsSafe ending_env in_order one_place util-FinalizerLaws util-NamespaceLaw
      ending_env-TemplateLaw ending_env-GetLaw util-OwnerLaw in_order-RangeLaw (tt, tt)
      vm_gone-Reaches

-- Both run at the same time, and the controller of VMs stops after the deletion of the VM.
abbrev alone : World (Unit {0})
alone = record {
  state = tt;
  trace =
      instance_updated (without_finalizer ending_env leaving)
        (ok (without_finalizer ending_env leaving))
      ∷ deletion_ended "lab" "europe-west4-a" "bert-0" (ok tt)
      ∷ vm_deleted "lab" "europe-west4-a" "bert-0" (ok done)
      ∷ [];
}

alone_run : reconcile ending_env "default" "bert-0" start ≡ some (finished, alone)
unfolding ◌>>=◌ reconcile handle_deletion release_vm delete_gcp_instance drop_finalizer forgive_gone
    fetch_instance_template fetch_gcp_credentials label new_provisioner delete_instance
    wait_for_operation delete_node_if_named
alone_run = refl

abbrev crossed : Trace
crossed =
    training_updated (released ending_env ending) (ok (released ending_env ending))
    ∷ deletion_ended "lab" "europe-west4-a" "bert-0" (ok tt)
    ∷ vm_deleted "lab" "europe-west4-a" "bert-0" (ok done)
    ∷ instance_deleted leaving (ok tt)
    ∷ []

crossed-Overlaps : Overlaps (λ i. ending_env) (λ i. in_order) crossed
crossed-Overlaps =
    Overlaps.instance_reconciled 1 tt "default" "bert-0"
      (Overlaps.training_reconciled 0 tt "default" "bert" idle (rw (training_run) whole)
        (left _ (left _ Merges.done)))
      (rw (alone_run) (lost _ whole)) (right _ (left _ (left _ (right _ Merges.done))))

Overlaps-IsSafe_example : IsSafe ending_env.util one_place crossed
Overlaps-IsSafe_example =
    Overlaps-IsSafe (λ i. ending_env) (λ i. in_order) ending_env.util one_place (λ i. refl)
      util-FinalizerLaws util-NamespaceLaw (λ i. ending_env-TemplateLaw) (λ i. ending_env-GetLaw)
      util-OwnerLaw (λ i. in_order-RangeLaw) crossed-Overlaps
