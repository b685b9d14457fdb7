-- ===== src/InstanceController/Stable/Synced.antt =====
-- The VM of an object is provisioned or looked at: what is left alone.
use spot_instance_training_o.Api.Instance.{ProvisionedInstance}
use spot_instance_training_o.Cluster.Errors.{ok, err}
use spot_instance_training_o.Cluster.Env.{Env}
use spot_instance_training_o.Cluster.Hoare.{Preserves, Ensures-branch, Keeps-then, Keeps-pure}
use spot_instance_training_o.Gcp.Reads.{new_provisioner-Keeps}
use spot_instance_training_o.Gcp.Waiting.{Waits}
use spot_instance_training_o.InstanceController.Reconcile.{sync_vm}
use spot_instance_training_o.InstanceController.Stable.{
  IsStable, fetch_instance_template-Keeps, fetch_gcp_credentials-Keeps,
  check_and_update_instance_status-Keeps, provision_instance-Keeps,
}
use spot_instance_training_o.Cluster.Events.{Trace}

module _ {C S W : Type 0} (env : Env C S W) {Z : Type 0} {P : Trace → Type 0} (stable : IsStable P)
    (waits : Waits Z env.cloud env.patience) where
  pub sync_vm-Keeps : (pi : ProvisionedInstance) → Preserves Z P (sync_vm env pi)
  unfolding sync_vm
  sync_vm-Keeps pi = Keeps-then (fetch_instance_template-Keeps env.client _ pi) elim [
    | err e ↦ Keeps-pure _
    | ok template ↦ Keeps-then (fetch_gcp_credentials-Keeps env.client _ _) elim [
      | err e ↦ Keeps-pure _
      | ok json ↦ Keeps-then (new_provisioner-Keeps env.cloud _ json _) elim [
        | err e ↦ Keeps-pure _
        | ok p ↦
            Ensures-branch (λ _. provision_instance-Keeps env stable waits pi template p)
              (λ _. check_and_update_instance_status-Keeps env stable.steady pi template p)
      ]
    ]
  ]
