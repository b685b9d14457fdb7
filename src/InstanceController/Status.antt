-- ===== src/InstanceController/Status.antt =====
-- Copying the state of a VM into its object: `updateInstanceStatus`, `checkAndUpdateInstanceStatus`.
use spot_instance_training_o.Base.{
  Bool, true, String, Option, none, some, List, [], ◌∷◌, ◌||◌, ◌&&◌, not, str_eq, contains, decimal,
  if◌then◌else◌,
}
use spot_instance_training_o.Api.Template.{InstanceTemplate}
use spot_instance_training_o.Api.Instance.{ProvisionedInstance, ProvisionedInstanceStatus}
use spot_instance_training_o.Api.Compute.{Instance, NetworkInterface, AccessConfig}
use spot_instance_training_o.Cluster.Errors.{
  Result, ok, err, Error, Outcome, finished, requeue, failed, failed_after,
}
use spot_instance_training_o.Cluster.Events.{instance_status_updated}
use spot_instance_training_o.Cluster.Prog.{Prog, pure, branch, ◌>>=◌, ◌>>◌, ask, act}
use spot_instance_training_o.Cluster.Client.{Client}
use spot_instance_training_o.Cluster.Env.{Env}
use spot_instance_training_o.Gcp.Provisioner.{Provisioner, get_instance, is_ending}
use spot_instance_training_o.InstanceController.Fetch.{is_empty, delete_node}

-- The text that an error is searched for, to tell that the VM is gone.
abbrev pub is_gone : Error → Bool
is_gone e = contains e.message "notFound" || contains e.message "404"

external_ip : List AccessConfig → ProvisionedInstanceStatus → ProvisionedInstanceStatus
external_ip [] s = s
external_ip (a ∷ as') s = record s { external_ip = a.nat_ip }

addresses : List NetworkInterface → ProvisionedInstanceStatus → ProvisionedInstanceStatus
addresses [] s = s
addresses (n ∷ ns) s = external_ip n.access_configs (record s { internal_ip = n.network_ip })

-- The identity, the state and the addresses that the cloud reports.
unfoldable pub basic_info : Instance → ProvisionedInstanceStatus → ProvisionedInstanceStatus
unfolding addresses external_ip
basic_info i s =
    addresses i.network_interfaces
      (record s { instance_id = decimal i.id; instance_name = i.name; state = i.status })

-- A VM that is stopping or has stopped counts as preempted.
unfoldable pub preemption : Instance → ProvisionedInstanceStatus → ProvisionedInstanceStatus
preemption i s =
    if is_ending i.status then record s { preemption_notice = true; state = i.status } else s

-- `status.State = "TERMINATED"; status.PreemptionNotice = true`
abbrev pub terminated : ProvisionedInstance → ProvisionedInstance
terminated pi = record pi {
  status = record pi.status { state = "TERMINATED"; preemption_notice = true };
}

module _ {W : Type 0} (client : Client W) where
  -- The node of the VM's name, once the VM runs: found means joined.
  unfoldable pub join_node : Instance → ProvisionedInstanceStatus → Prog W ProvisionedInstanceStatus
  join_node i s =
      branch (str_eq i.status "RUNNING" && not s.joined_cluster)
        (do
          node ← ask (client.get_node i.name)
          pure (elim node [
            | err e ↦ s
            | ok n ↦ record s { joined_cluster = true; node_name = n.meta.name }
          ]))
        (pure s)

  -- The node is deleted if one is recorded, and a failure is only logged.
  unfoldable pub delete_node_if_named : String → Prog W (Unit {0})
  delete_node_if_named name = branch (is_empty name) (pure tt) (do delete_node client name; pure tt)

  unfoldable pub after_update : Instance → Result ProvisionedInstance → Prog W Outcome
  after_update i (err e) = pure (failed e)
  after_update i (ok updated) =
      branch (str_eq i.status "TERMINATED")
        (do delete_node_if_named updated.status.node_name; pure finished) (pure (requeue 10))

  unfoldable pub update_instance_status : ProvisionedInstance → Instance → Prog W Outcome
  unfolding after_update
  update_instance_status pi i = do
    joined ← join_node i (basic_info i pi.status)
    let pi' = record pi { status = preemption i joined }
    updated ← act (client.update_instance_status pi') (instance_status_updated pi')
    after_update i updated

  -- The VM is not there any more.
  unfoldable pub mark_terminated : ProvisionedInstance → Prog W Outcome
  mark_terminated pi = do
    delete_node_if_named pi.status.node_name
    updated ←
        act (client.update_instance_status (terminated pi))
          (instance_status_updated (terminated pi))
    pure (elim updated [ err e ↦ failed e | ok _ ↦ finished ])

  -- What was found of the VM: an error, a nil pointer or an instance.
  unfoldable pub on_found : ProvisionedInstance → Result (Option Instance) → Prog W Outcome
  on_found pi (err e) = branch (is_gone e) (mark_terminated pi) (pure (failed_after 10 e))
  on_found pi (ok none) = mark_terminated pi
  on_found pi (ok (some i)) = update_instance_status pi i

-- The library's call answers with an instance or an error; the code also asks for a nil pointer.
abbrev pub pointer : Result Instance → Result (Option Instance)
pointer (err e) = err e
pointer (ok i) = ok (some i)

module _ {C S W : Type 0} (env : Env C S W) where
  unfoldable pub check_and_update_instance_status :
      ProvisionedInstance → InstanceTemplate → Provisioner S → Prog W Outcome
  check_and_update_instance_status pi template p = do
    found ← get_instance env.cloud p template.spec.gcp.zone pi.status.instance_name
    on_found env.client pi (pointer found)
