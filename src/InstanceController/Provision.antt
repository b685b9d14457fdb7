-- ===== src/InstanceController/Provision.antt =====
-- `provisionInstance`: a VM is created unless the zone has one of the object's name.
use spot_instance_training_o.Base.{
  Bool, true, String, append, none, some, List, [], ◌∷◌, decimal, if◌then◌else◌,
}
use spot_instance_training_o.Api.Template.{InstanceTemplate, InstanceTemplateSpec}
use spot_instance_training_o.Api.Instance.{ProvisionedInstance}
use spot_instance_training_o.Api.Compute.{Instance}
use spot_instance_training_o.Cluster.Errors.{ok, err, Outcome, requeue, failed, failed_after}
use spot_instance_training_o.Cluster.Events.{instance_status_updated}
use spot_instance_training_o.Cluster.Prog.{Prog, pure, ◌>>=◌, ask, act}
use spot_instance_training_o.Cluster.Env.{Env}
use spot_instance_training_o.Gcp.Provisioner.{
  Provisioner, list_instances_by_prefix, provision_spot_instance,
}
use spot_instance_training_o.InstanceController.Fetch.{JoinInfo, is_empty, fetch_kubeadm_join_info}
use spot_instance_training_o.InstanceController.Status.{update_instance_status}

-- The command that the VM runs to join the cluster.
abbrev pub join_command : JoinInfo → String
join_command info = append "kubeadm join " (
    append info.control_plane_endpoint (
      append " --token "
        (append info.token (append " --discovery-token-ca-cert-hash " info.ca_cert_hash))))

-- The copy of the template whose start-up script ends in the command.
unfoldable pub with_join_command : JoinInfo → InstanceTemplateSpec → InstanceTemplateSpec
with_join_command info spec = record spec {
  startup_script =
      if is_empty spec.startup_script
      then append "#!/bin/bash\n" (join_command info)
      else append spec.startup_script (append "\n" (join_command info));
}

-- Spot unless the template says otherwise.
abbrev pub wants_preemptible : InstanceTemplateSpec → Bool
wants_preemptible spec = elim spec.preemptible [ none ↦ true | some b ↦ b ]

module _ {C S W : Type 0} (env : Env C S W) where
  -- The status of an object whose VM has just been created.
  unfoldable pub record_provisioned : ProvisionedInstance → Instance → Prog W Outcome
  record_provisioned pi i = do
    now ← ask env.client.now
    let status = record pi.status {
      instance_id = decimal i.id;
      instance_name = i.name;
      state = "PROVISIONING";
      creation_time = some now;
    }
    let pi' = record pi { status = status }
    updated ← act (env.client.update_instance_status pi') (instance_status_updated pi')
    pure (elim updated [ err e ↦ failed e | ok _ ↦ requeue 30 ])

  unfoldable pub create_vm : ProvisionedInstance → InstanceTemplate → Provisioner S → Prog W Outcome
  create_vm pi template p = do
    info ← fetch_kubeadm_join_info env.client pi.meta.namespace
    elim info [
      | err e ↦ pure (failed_after 15 e)
      | ok join ↦ do
        let spec = with_join_command join template.spec
        created ←
            provision_spot_instance env.cloud env.patience p spec pi.meta.name
              (wants_preemptible spec)
        elim created [ err e ↦ pure (failed_after 30 e) | ok i ↦ record_provisioned pi i ]
    ]

  unfoldable pub adopt_or_create :
      ProvisionedInstance → InstanceTemplate → Provisioner S → List Instance → Prog W Outcome
  adopt_or_create pi template p [] = create_vm pi template p
  adopt_or_create pi template p (i ∷ is) = update_instance_status env.client pi i

  unfoldable pub provision_instance :
      ProvisionedInstance → InstanceTemplate → Provisioner S → Prog W Outcome
  unfolding create_vm adopt_or_create
  provision_instance pi template p = do
    existing ← list_instances_by_prefix env.cloud p template.spec.gcp.zone pi.meta.name
    elim existing [
      | err e ↦ pure (failed_after 30 e)
      | ok instances ↦ adopt_or_create pi template p instances
    ]
