-- ===== src/InstanceController/Stable.antt =====
-- The parts of the controller of VMs that never call `Update`, and the properties of the trace that
-- such calls leave alone.
pub mod Synced
use spot_instance_training_o.Base.{refl, String, List, [], ◌∷◌, some, none}
use spot_instance_training_o.Api.Meta.{SecretReference}
use spot_instance_training_o.Api.Template.{InstanceTemplate, InstanceTemplateSpec}
use spot_instance_training_o.Api.Instance.{ProvisionedInstance, ProvisionedInstanceStatus}
use spot_instance_training_o.Api.Compute.{Instance, Operation}
use spot_instance_training_o.Base.{Bool, Option}
use spot_instance_training_o.Api.Kube.{Node}
use spot_instance_training_o.Cluster.Errors.{Result, ok, err}
use spot_instance_training_o.Cluster.Events.{
  Trace, instance_status_updated, node_deleted, vm_inserted,
}
use spot_instance_training_o.Cluster.Client.{Client}
use spot_instance_training_o.Cluster.Env.{Env}
use spot_instance_training_o.Cluster.Hoare.{
  Preserves, Ensures-branch, Keeps-then, Keeps-ask, Keeps-pure, Keeps-act, keeps_rules,
  Ensures-bind, Ensures-act, Triple-before, Triple-both,
}
use spot_instance_training_o.Gcp.Provisioner.{Provisioner, provision_spot_instance}
use spot_instance_training_o.Gcp.Reads.{get_instance-Keeps, list_instances_by_prefix-Keeps}
use spot_instance_training_o.Gcp.Waiting.{Waits}
use spot_instance_training_o.InstanceController.Mirror.{
  IsNoticed, Mirrors-IsNoticed, preemption-Mirrors, join_node-JoinsFrom,
}
use spot_instance_training_o.InstanceController.Fetch.{
  fetch_instance_template, fetch_gcp_credentials, fetch_kubeadm_join_info, delete_node,
}
use spot_instance_training_o.InstanceController.Status.{
  basic_info, join_node, delete_node_if_named, after_update, update_instance_status,
  mark_terminated, on_found, check_and_update_instance_status,
}
use spot_instance_training_o.InstanceController.Provision.{
  record_provisioned, create_vm, adopt_or_create, provision_instance,
}

-- Left alone by the deletion of a node.
pub record IsQuiet (P : Trace → Type 0) : Type 0 where
  pub node :
      (n : Node) (answer : Result (Unit {0})) (t : Trace) → P t → P (node_deleted n answer ∷ t)

-- Left alone by a status update too, of which the preemption notice is known.
pub record IsSteady (P : Trace → Type 0) : Type 0 where
  pub quiet : IsQuiet P
  pub status :
      (pi : ProvisionedInstance) (answer : Result ProvisionedInstance) (t : Trace)
      → IsNoticed pi.status
      → P t
      → P (instance_status_updated pi answer ∷ t)

-- Left alone by the creation of a VM too.
pub record IsStable (P : Trace → Type 0) : Type 0 where
  pub steady : IsSteady P
  pub vm :
      (project zone : String) (i : Instance) (answer : Result Operation) (t : Trace)
      → P t
      → P (vm_inserted project zone i answer ∷ t)

module _ {W : Type 0} (client : Client W) {Z : Type 0} (P : Trace → Type 0) where
  pub fetch_instance_template-Keeps :
      (pi : ProvisionedInstance) → Preserves Z P (fetch_instance_template client pi)
  unfolding fetch_instance_template
  fetch_instance_template-Keeps pi = Keeps-ask _

  pub fetch_gcp_credentials-Keeps :
      (ref : SecretReference) → Preserves Z P (fetch_gcp_credentials client ref)
  unfolding fetch_gcp_credentials
  fetch_gcp_credentials-Keeps ref = search keeps_rules

  pub fetch_kubeadm_join_info-Keeps :
      (namespace : String) → Preserves Z P (fetch_kubeadm_join_info client namespace)
  unfolding fetch_kubeadm_join_info
  fetch_kubeadm_join_info-Keeps namespace = search keeps_rules

  pub join_node-Keeps :
      (i : Instance) (s : ProvisionedInstanceStatus) → Preserves Z P (join_node client i s)
  unfolding join_node
  join_node-Keeps i s = Ensures-branch (λ runs. search keeps_rules) (λ _. Keeps-pure _)

module _ {W : Type 0} (client : Client W) {Z : Type 0} {P : Trace → Type 0}
    (quiet : IsQuiet P) where
  delete_node-Keeps : (name : String) → Preserves Z P (delete_node client name)
  unfolding delete_node
  delete_node-Keeps name =
      Keeps-then (Keeps-ask _)
        elim [ err e ↦ Keeps-pure _ | ok n ↦ Keeps-act _ _ (λ a t p. quiet.node n a t p) ]

  pub delete_node_if_named-Keeps :
      (name : String) → Preserves Z P (delete_node_if_named client name)
  unfolding delete_node_if_named
  delete_node_if_named-Keeps name =
      Ensures-branch (λ _. Keeps-pure _)
        (λ _. Keeps-then (delete_node-Keeps name) (λ _. Keeps-pure _))

  pub after_update-Keeps :
      (i : Instance) (r : Result ProvisionedInstance) → Preserves Z P (after_update client i r)
  unfolding after_update
  after_update-Keeps i (err e) = Keeps-pure _
  after_update-Keeps i (ok updated) =
      Ensures-branch (λ _. Keeps-then (delete_node_if_named-Keeps _) (λ _. Keeps-pure _))
        (λ _. Keeps-pure _)

module _ {W : Type 0} (client : Client W) {Z : Type 0} {P : Trace → Type 0}
    (steady : IsSteady P) where
  pub update_instance_status-Keeps :
      (pi : ProvisionedInstance) (i : Instance) → Preserves Z P (update_instance_status client pi i)
  unfolding update_instance_status
  update_instance_status-Keeps pi i =
      Ensures-bind
        (Triple-before (λ t p. (tt, p))
          (Triple-both (join_node-JoinsFrom client i (basic_info i pi.status))
            (join_node-Keeps client P i (basic_info i pi.status))))
        λ s.
          Ensures-bind {Q = λ _. P}
            (Ensures-act _ _ (λ a t h.
              steady.status _ a t
                (Mirrors-IsNoticed i pi.status _ (preemption-Mirrors i pi.status s h.0)) h.1))
            (after_update-Keeps client steady.quiet i)

  pub mark_terminated-Keeps : (pi : ProvisionedInstance) → Preserves Z P (mark_terminated client pi)
  unfolding mark_terminated
  mark_terminated-Keeps pi = Keeps-then (delete_node_if_named-Keeps client steady.quiet _) λ _.
      Keeps-then (Keeps-act _ _ (λ a t p. steady.status _ a t (λ _. refl) p)) (λ _. Keeps-pure _)

  pub on_found-Keeps :
      (pi : ProvisionedInstance) (r : Result (Option Instance))
      → Preserves Z P (on_found client pi r)
  unfolding on_found
  on_found-Keeps pi (err e) = Ensures-branch (λ _. mark_terminated-Keeps pi) (λ _. Keeps-pure _)
  on_found-Keeps pi (ok none) = mark_terminated-Keeps pi
  on_found-Keeps pi (ok (some i)) = update_instance_status-Keeps pi i

module _ {C S W : Type 0} (env : Env C S W) {Z : Type 0} {P : Trace → Type 0}
    (steady : IsSteady P) where
  pub check_and_update_instance_status-Keeps :
      (pi : ProvisionedInstance) (template : InstanceTemplate) (p : Provisioner S)
      → Preserves Z P (check_and_update_instance_status env pi template p)
  unfolding check_and_update_instance_status
  check_and_update_instance_status-Keeps pi template p =
      Keeps-then (get_instance-Keeps env.cloud P p _ _) (λ r. on_found-Keeps env.client steady pi _)

  pub record_provisioned-Keeps :
      (pi : ProvisionedInstance) (i : Instance) → Preserves Z P (record_provisioned env pi i)
  unfolding record_provisioned
  record_provisioned-Keeps pi i = Keeps-then (Keeps-ask _) λ now.
      Keeps-then (Keeps-act _ _ (λ a t p. steady.status _ a t (λ ending. absurd (cc ending)) p))
        (λ _. Keeps-pure _)

module _ {C S W : Type 0} (env : Env C S W) {Z : Type 0} {P : Trace → Type 0} (stable : IsStable P)
    (waits : Waits Z env.cloud env.patience) where
  pub provision_spot_instance-Keeps :
      (p : Provisioner S) (spec : InstanceTemplateSpec) (name : String) (spot : Bool)
      → Preserves Z P (provision_spot_instance env.cloud env.patience p spec name spot)
  unfolding provision_spot_instance
  provision_spot_instance-Keeps p spec name spot =
      Keeps-then (Keeps-act _ _ (stable.vm _ _ _)) elim [
        | err e ↦ Keeps-pure _
        | ok op ↦
            Keeps-then (waits.keeps P p op _)
              elim [ err e ↦ Keeps-pure _ | ok _ ↦ Keeps-then (Keeps-ask _) (λ _. Keeps-pure _) ]
      ]

  create_vm-Keeps :
      (pi : ProvisionedInstance) (template : InstanceTemplate) (p : Provisioner S)
      → Preserves Z P (create_vm env pi template p)
  unfolding create_vm
  create_vm-Keeps pi template p = Keeps-then (fetch_kubeadm_join_info-Keeps env.client P _) elim [
    | err e ↦ Keeps-pure _
    | ok join ↦
        Keeps-then (provision_spot_instance-Keeps p _ _ _)
          elim [ err e ↦ Keeps-pure _ | ok i ↦ record_provisioned-Keeps env stable.steady pi i ]
  ]

  adopt_or_create-Keeps :
      (pi : ProvisionedInstance) (template : InstanceTemplate) (p : Provisioner S)
      (found : List Instance)
      → Preserves Z P (adopt_or_create env pi template p found)
  unfolding adopt_or_create
  adopt_or_create-Keeps pi template p [] = create_vm-Keeps pi template p
  adopt_or_create-Keeps pi template p (i ∷ is) =
      update_instance_status-Keeps env.client stable.steady pi i

  pub provision_instance-Keeps :
      (pi : ProvisionedInstance) (template : InstanceTemplate) (p : Provisioner S)
      → Preserves Z P (provision_instance env pi template p)
  unfolding provision_instance
  provision_instance-Keeps pi template p =
      Keeps-then (list_instances_by_prefix-Keeps env.cloud P p _ _)
        elim [ err e ↦ Keeps-pure _ | ok found ↦ adopt_or_create-Keeps pi template p found ]
