-- ===== src/InstanceController/Mirror.antt =====
-- What `updateInstanceStatus` makes of the state of a VM.
use spot_instance_training_o.Base.{ap, sym, ◌∙◌, ◌≡◌, ◌⊎◌, true, ◌||◌, arith, eq_iff, or-true}
use spot_instance_training_o.Api.Instance.{ProvisionedInstanceStatus}
use spot_instance_training_o.Api.Compute.{Instance}
use spot_instance_training_o.Cluster.Errors.{ok, err}
use spot_instance_training_o.Cluster.Client.{Client}
use spot_instance_training_o.Cluster.Hoare.{
  Triple, Ensures-pure, Ensures-branch, Keeps-then, Keeps-ask,
}
use spot_instance_training_o.Gcp.Provisioner.{is_ending}
use spot_instance_training_o.InstanceController.Status.{basic_info, preemption, join_node}

-- The status that is sent tells the state of the VM, and a preemption from the first sight of a
-- stopping or stopped VM on.
pub record Mirrors (i : Instance) (old new : ProvisionedInstanceStatus) : Type 0 where
  pub name : new.instance_name ≡ i.name
  pub state : new.state ≡ i.status
  pub notice : new.preemption_notice ≡ (old.preemption_notice || is_ending i.status)
  pub stays_joined : old.joined_cluster ≡ true → new.joined_cluster ≡ true
  pub joins_running :
      new.joined_cluster ≡ true → (old.joined_cluster ≡ true) ⊎ (i.status ≡ "RUNNING")

basic_info_keeps :
    (i : Instance) (s : ProvisionedInstanceStatus)
    → let b = basic_info i s in
      (b.instance_name ≡ i.name)
      × (b.state ≡ i.status)
      × (b.preemption_notice ≡ s.preemption_notice)
      × (b.joined_cluster ≡ s.joined_cluster)
unfolding basic_info
basic_info_keeps i s = ground arith

-- What a look for the node may change.
abbrev pub JoinsFrom : Instance → ProvisionedInstanceStatus → ProvisionedInstanceStatus → Type 0
JoinsFrom i b s =
    (s.instance_name ≡ b.instance_name)
    × (s.state ≡ b.state)
    × (s.preemption_notice ≡ b.preemption_notice)
    × (b.joined_cluster ≡ true → s.joined_cluster ≡ true)
    × (s.joined_cluster ≡ true → (b.joined_cluster ≡ true) ⊎ (i.status ≡ "RUNNING"))

pub preemption-Mirrors :
    (i : Instance) (old s : ProvisionedInstanceStatus)
    → JoinsFrom i (basic_info i old) s
    → Mirrors i old (preemption i s)
unfolding preemption
preemption-Mirrors i old s j = ground (arith, basic_info_keeps i old)

module _ {W : Type 0} (client : Client W) where
  pub join_node-JoinsFrom :
      {Z : Type 0} (i : Instance) (b : ProvisionedInstanceStatus)
      → Triple Z (λ t. Unit) (join_node client i b) (λ s t. JoinsFrom i b s)
  unfolding join_node
  join_node-JoinsFrom i b =
      Ensures-branch
        (λ runs. Keeps-then (Keeps-ask _) elim [
          | err e ↦ Ensures-pure _ (λ t _. ground arith)
          | ok n ↦ Ensures-pure _ (λ t _. ground (arith, eq_iff i.status "RUNNING"))
        ])
        (λ _. Ensures-pure _ (λ t _. ground arith))

-- A status that says that the VM stops or has stopped has the preemption notice.
abbrev pub IsNoticed : ProvisionedInstanceStatus → Type 0
IsNoticed s = is_ending s.state ≡ true → s.preemption_notice ≡ true

pub Mirrors-IsNoticed :
    (i : Instance) (old new : ProvisionedInstanceStatus) → Mirrors i old new → IsNoticed new
Mirrors-IsNoticed i old new m ending =
    m.notice
    ∙ ap (λ b. old.preemption_notice || b) (sym (ap is_ending m.state) ∙ ending)
    ∙ or-true old.preemption_notice
