-- ===== src/InstanceController/Report.antt =====
-- `checkAndUpdateInstanceStatus` and `updateInstanceStatus`: the status that is sent, branch by branch.
use spot_instance_training_o.Base.{
  ◌≡◌, refl, true, false, String, append, Option, none, some, [], ◌∷◌, str_eq, contains,
  contains-append_left, contains-append_right, or-true, if◌then◌else◌, ◌*◌,
}
use spot_instance_training_o.Api.Template.{InstanceTemplate}
use spot_instance_training_o.Api.Instance.{ProvisionedInstance, ProvisionedInstanceStatus}
use spot_instance_training_o.Api.Compute.{Instance}
use spot_instance_training_o.Cluster.Errors.{
  Error, Result, ok, err, Outcome, wrap, second, failed_after,
}
use spot_instance_training_o.Cluster.Events.{Trace, instance_status_updated}
use spot_instance_training_o.Cluster.Prog.{World, ◌>>=◌}
use spot_instance_training_o.Cluster.Client.{Client}
use spot_instance_training_o.Cluster.Env.{Env}
use spot_instance_training_o.Cluster.Hoare.{
  Yields, Delivers, Ensures-pure, Ensures-act, Ensures-bind, Ensures-branch, Keeps-then,
}
use spot_instance_training_o.Gcp.Provisioner.{Provisioner, get_instance}
use spot_instance_training_o.InstanceController.Status.{
  is_gone, basic_info, preemption, terminated, after_update, update_instance_status,
  mark_terminated, on_found, check_and_update_instance_status,
}
use spot_instance_training_o.InstanceController.Mirror.{
  Mirrors, preemption-Mirrors, join_node-JoinsFrom,
}
use spot_instance_training_o.InstanceController.Stable.{IsQuiet, delete_node_if_named-Keeps}

-- The object of the last status update.
abbrev pub last_status : Trace → Option ProvisionedInstance
last_status [] = none
last_status (instance_status_updated pi answer ∷ t) = some pi
last_status (e ∷ t) = last_status t

-- When the object is looked at again.
abbrev pub LooksAgain : Instance → Outcome → Type 0
LooksAgain i out =
    out.error ≡ none → out.requeue_after ≡ (if str_eq i.status "TERMINATED" then 0 else 10 * second)

abbrev pub Sent : Instance → ProvisionedInstanceStatus → Trace → Type 0
Sent i old t =
    (sent : ProvisionedInstance) × (last_status t ≡ some sent) × Mirrors i old sent.status

Sent-IsQuiet : (i : Instance) (old : ProvisionedInstanceStatus) → IsQuiet (Sent i old)
Sent-IsQuiet i old = record { node = λ n answer t h. h }

module _ {W : Type 0} (client : Client W) where
  -- The next look is in ten seconds, unless the VM has stopped for good.
  after_update-Delivers :
      (i : Instance) (old : ProvisionedInstanceStatus) (r : Result ProvisionedInstance)
      → Delivers (Sent i old) (after_update client i r) (λ out t. Sent i old t × LooksAgain i out)
  unfolding after_update
  after_update-Delivers i old (err e) = Ensures-pure _ (λ t h. (h, λ no_error. cc))
  after_update-Delivers i old (ok updated) =
      Ensures-branch
        (λ stopped.
          Keeps-then (delete_node_if_named-Keeps client (Sent-IsQuiet i old) _)
            (λ _. Ensures-pure _ (λ t h. (h, λ _. rw stopped refl))))
        (λ runs. Ensures-pure _ (λ t h. (h, λ _. rw runs refl)))

  update_instance_status-Delivers :
      (pi : ProvisionedInstance) (i : Instance)
      → Delivers
          (λ t. Unit)
          (update_instance_status client pi i)
          (λ out t. Sent i pi.status t × LooksAgain i out)
  unfolding update_instance_status
  update_instance_status-Delivers pi i =
      Ensures-bind (join_node-JoinsFrom client i (basic_info i pi.status)) λ s.
        Ensures-bind {Q = λ _. Sent i pi.status}
          (Ensures-act _ _ (λ a t j.
            (record pi { status = preemption i s }, refl, preemption-Mirrors i pi.status s j)))
          (after_update-Delivers i pi.status)

-- Copying the state of a VM always comes to its end. The last status that was sent has the VM's name
-- and state, keeps an earlier preemption notice, sets the notice exactly for a VM that is STOPPING or
-- TERMINATED besides, keeps the object joined, and joins it only while the VM is RUNNING. If no error
-- is returned, the next look is in ten seconds, and there is none for a VM that is TERMINATED.
pub update_instance_status-reports :
    {W : Type 0} (client : Client W) (pi : ProvisionedInstance) (i : Instance) (w : World W)
    → Yields (update_instance_status client pi i w) (λ out t. Sent i pi.status t × LooksAgain i out)
update_instance_status-reports client pi i w = (update_instance_status-Delivers client pi i).at w tt

module _ {W : Type 0} (client : Client W) where
  pub mark_terminated-Delivers :
      (pi : ProvisionedInstance)
      → Delivers
          (λ t. Unit)
          (mark_terminated client pi)
          (λ out t. (last_status t ≡ some (terminated pi)) × (out.requeue_after ≡ 0))
  unfolding mark_terminated
  mark_terminated-Delivers pi =
      Keeps-then (delete_node_if_named-Keeps client (record { node = λ n a t h. tt }) _) λ _.
        Ensures-bind {Q = λ _ t. last_status t ≡ some (terminated pi)}
          (Ensures-act _ _ (λ a t _. refl))
          elim [
            | err e ↦ Ensures-pure _ (λ t h. (h, refl))
            | ok u ↦ Ensures-pure _ (λ t h. (h, refl))
          ]

-- The error of the cloud's `Get`, as the controller sees it.
abbrev seen : Error → Error
seen e = wrap "failed to get instance" e

is_gone-of_part :
    (e : Error) (before part after : String)
    → e.message ≡ append before (append part after)
    → contains part "404" ≡ true
    → is_gone (seen e) ≡ true
is_gone-of_part e before part after shape bad = rw (shape, has_part) (or-true _)
  where
    text : String
    text = append before (append part after)

    has_part : contains (append "failed to get instance" (append ": " text)) "404" ≡ true
    has_part = contains-append_right "failed to get instance" _ "404" (
        contains-append_right ": " _ "404"
          (contains-append_right before _ "404" (contains-append_left part after "404" bad)))

module _ {C S W : Type 0} (env : Env C S W) where
  -- An error of the cloud's `Get` whose text has neither "notFound" nor "404" is handed on, to be tried
  -- again in ten seconds, and nothing is written.
  pub check-not_gone :
      (pi : ProvisionedInstance) (template : InstanceTemplate) (p : Provisioner S) (w : World W)
      (e : Error) (s : W)
      → env.cloud.get_instance p.compute_service p.project template.spec.gcp.zone
          pi.status.instance_name w.state
        ≡ (err e, s)
      → is_gone (seen e) ≡ false
      → check_and_update_instance_status env pi template p w
        ≡ some (failed_after 10 (seen e), record w { state = s })
  unfolding check_and_update_instance_status get_instance ◌>>=◌ on_found
  check-not_gone pi template p w e s h there = rw (h, there)

  -- One whose text has either marks the VM as terminated, and it is not looked at again.
  pub check-gone :
      (pi : ProvisionedInstance) (template : InstanceTemplate) (p : Provisioner S) (w : World W)
      (e : Error) (s : W)
      → env.cloud.get_instance p.compute_service p.project template.spec.gcp.zone
          pi.status.instance_name w.state
        ≡ (err e, s)
      → is_gone (seen e) ≡ true
      → Yields
          (check_and_update_instance_status env pi template p w)
          (λ out t. (last_status t ≡ some (terminated pi)) × (out.requeue_after ≡ 0))
  unfolding check_and_update_instance_status get_instance ◌>>=◌ on_found
  check-gone pi template p w e s h gone =
      rw (h, gone) ((mark_terminated-Delivers env.client pi).at (record w { state = s }) tt)

-- Any error of the cloud's `Get`, such as one of the network, whose text quotes the name of the VM
-- makes the controller report the VM as TERMINATED and preempted, and stop looking at it, if that
-- name has the digits 404 in it.
pub check-mistakes_name_for_gone :
    {C S W : Type 0} (env : Env C S W) (pi : ProvisionedInstance) (template : InstanceTemplate)
    (p : Provisioner S) (w : World W) (e : Error) (s : W) (before after : String)
    → env.cloud.get_instance p.compute_service p.project template.spec.gcp.zone
        pi.status.instance_name w.state
      ≡ (err e, s)
    → e.message ≡ append before (append pi.status.instance_name after)
    → contains pi.status.instance_name "404" ≡ true
    → Yields
        (check_and_update_instance_status env pi template p w)
        (λ out t. (last_status t ≡ some (terminated pi)) × (out.requeue_after ≡ 0))
check-mistakes_name_for_gone env pi template p w e s before after h quoted bad =
    check-gone env pi template p w e s h
      (is_gone-of_part e before pi.status.instance_name after quoted bad)
