-- ===== src/InstanceController/Deletion.antt =====
-- `handleDeletion`: the VM goes first, then the node, then the finalizer.
use spot_instance_training_o.Base.{String, if◌then◌else◌}
use spot_instance_training_o.Api.Instance.{ProvisionedInstance}
use spot_instance_training_o.Cluster.Errors.{
  Result, ok, err, Outcome, finished, failed, failed_after,
}
use spot_instance_training_o.Cluster.Events.{instance_updated}
use spot_instance_training_o.Cluster.Prog.{Prog, pure, branch, ◌>>=◌, ◌>>◌, act}
use spot_instance_training_o.Cluster.Env.{Env}
use spot_instance_training_o.Gcp.Provisioner.{new_provisioner, delete_instance}
use spot_instance_training_o.InstanceController.Fetch.{
  is_empty, fetch_instance_template, fetch_gcp_credentials,
}
use spot_instance_training_o.InstanceController.Status.{is_gone, delete_node_if_named}

abbrev pub provisioned_instance_finalizer : String
provisioned_instance_finalizer = "training.dcnlab.com/provisionedinstance-finalizer"

-- A VM that is gone already counts as deleted.
unfoldable pub forgive_gone : Result (Unit {0}) → Result (Unit {0})
forgive_gone (ok _) = ok tt
forgive_gone (err e) = if is_gone e then ok tt else err e

module _ {C S W : Type 0} (env : Env C S W) where
  unfoldable pub delete_gcp_instance : ProvisionedInstance → Prog W (Result (Unit {0}))
  unfolding forgive_gone
  delete_gcp_instance pi = do
    fetched ← fetch_instance_template env.client pi
    elim fetched [
      | err e ↦ pure (err e)
      | ok template ↦ do
        creds ← fetch_gcp_credentials env.client pi.spec.gcp_credentials_secret_ref
        elim creds [
          | err e ↦ pure (err e)
          | ok json ↦ do
            made ← new_provisioner env.cloud json template.spec.gcp.project
            elim made [
              | err e ↦ pure (err e)
              | ok p ↦ do
                deleted ←
                    delete_instance env.cloud env.patience p template.spec.gcp.project
                      template.spec.gcp.zone pi.status.instance_name
                pure (forgive_gone deleted)
            ]
        ]
    ]

  -- No VM is recorded, or it is deleted.
  unfoldable pub release_vm : ProvisionedInstance → Prog W (Result (Unit {0}))
  release_vm pi = branch (is_empty pi.status.instance_name) (pure (ok tt)) (delete_gcp_instance pi)

  abbrev pub without_finalizer : ProvisionedInstance → ProvisionedInstance
  without_finalizer pi = record pi {
    meta = env.util.remove_finalizer pi.meta provisioned_instance_finalizer;
  }

  unfoldable pub drop_finalizer : ProvisionedInstance → Prog W Outcome
  drop_finalizer pi = do
    updated ←
        act (env.client.update_instance (without_finalizer pi))
          (instance_updated (without_finalizer pi))
    pure (elim updated [ err e ↦ failed e | ok _ ↦ finished ])

  unfoldable pub handle_deletion : ProvisionedInstance → Prog W Outcome
  handle_deletion pi =
      branch (env.util.contains_finalizer pi.meta provisioned_instance_finalizer)
        (do
          released ← release_vm pi
          elim released [
            | err e ↦ pure (failed_after 30 e)
            | ok _ ↦ do delete_node_if_named env.client pi.status.node_name; drop_finalizer pi
          ])
        (pure finished)
