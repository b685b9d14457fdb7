-- ===== src/InstanceController/Reconcile.antt =====
-- `Reconcile` of the controller of VMs.
use spot_instance_training_o.Base.{true, false, String, ◌&&◌, str_eq}
use spot_instance_training_o.Api.Meta.{is_deleting}
use spot_instance_training_o.Api.Instance.{ProvisionedInstance}
use spot_instance_training_o.Cluster.Errors.{
  Result, ok, err, Outcome, is_not_found, finished, failed, failed_after,
}
use spot_instance_training_o.Cluster.Events.{instance_updated, instance_status_updated}
use spot_instance_training_o.Cluster.Prog.{Prog, pure, branch, ◌>>=◌, ask, act}
use spot_instance_training_o.Cluster.Env.{Env}
use spot_instance_training_o.Gcp.Provisioner.{new_provisioner}
use spot_instance_training_o.InstanceController.Fetch.{
  is_empty, fetch_instance_template, fetch_gcp_credentials,
}
use spot_instance_training_o.InstanceController.Status.{check_and_update_instance_status}
use spot_instance_training_o.InstanceController.Provision.{provision_instance}
use spot_instance_training_o.InstanceController.Deletion.{
  provisioned_instance_finalizer, handle_deletion,
}

module _ {C S W : Type 0} (env : Env C S W) where
  abbrev pub with_finalizer : ProvisionedInstance → ProvisionedInstance
  with_finalizer pi = record pi {
    meta = env.util.add_finalizer pi.meta provisioned_instance_finalizer;
  }

  -- The object as it stands once it has the finalizer.
  unfoldable pub ensure_finalizer : ProvisionedInstance → Prog W (Result ProvisionedInstance)
  ensure_finalizer pi =
      branch (env.util.contains_finalizer pi.meta provisioned_instance_finalizer) (pure (ok pi)) (
        act (env.client.update_instance (with_finalizer pi)) (instance_updated (with_finalizer pi)))

  abbrev pub pending : ProvisionedInstance → ProvisionedInstance
  pending pi = record pi { status = record pi.status { state = "PENDING" } }

  -- An object with no state starts as pending.
  unfoldable pub ensure_state : ProvisionedInstance → Prog W (Result ProvisionedInstance)
  ensure_state pi =
      branch (is_empty pi.status.state)
        (act (env.client.update_instance_status (pending pi))
          (instance_status_updated (pending pi)))
        (pure (ok pi))

  unfoldable pub sync_vm : ProvisionedInstance → Prog W Outcome
  sync_vm pi = do
    fetched ← fetch_instance_template env.client pi
    elim fetched [
      | err e ↦ pure (failed_after 30 e)
      | ok template ↦ do
        creds ← fetch_gcp_credentials env.client pi.spec.gcp_credentials_secret_ref
        elim creds [
          | err e ↦ pure (failed_after 30 e)
          | ok json ↦ do
            made ← new_provisioner env.cloud json template.spec.gcp.project
            elim made [
              | err e ↦ pure (failed e)
              | ok p ↦
                  branch (is_empty pi.status.instance_id && str_eq pi.status.state "PENDING")
                    (provision_instance env pi template p)
                    (check_and_update_instance_status env pi template p)
            ]
        ]
    ]

  unfoldable pub reconcile_live : ProvisionedInstance → Prog W Outcome
  reconcile_live pi = do
    marked ← ensure_finalizer pi
    elim marked [
      | err e ↦ pure (failed e)
      | ok pi' ↦ do
        started ← ensure_state pi'
        elim started [ err e ↦ pure (failed e) | ok pi'' ↦ sync_vm pi'' ]
    ]

  -- `req` is the namespace and the name.
  unfoldable pub reconcile : String → String → Prog W Outcome
  reconcile namespace name = do
    found ← ask (env.client.get_instance namespace name)
    elim found [
      | err e ↦ pure (elim (is_not_found e) [ true ↦ finished | false ↦ failed e ])
      | ok pi ↦ branch (is_deleting pi.meta) (handle_deletion env pi) (reconcile_live pi)
    ]
