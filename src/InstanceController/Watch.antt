-- ===== src/InstanceController/Watch.antt =====
-- `Reconcile` of a ProvisionedInstance that lives: when it is looked at again.
use spot_instance_training_o.Base.{
  ◌≡◌, refl, ◌⊎◌, inl, inr, Bool, true, false, String, Option, none, some, List, [], ◌∷◌, any,
  str_eq,
}
use spot_instance_training_o.Api.Meta.{is_deleting}
use spot_instance_training_o.Api.Template.{InstanceTemplate}
use spot_instance_training_o.Api.Instance.{ProvisionedInstance}
use spot_instance_training_o.Api.Compute.{Instance}
use spot_instance_training_o.Cluster.Errors.{Result, ok, err, Outcome, is_over}
use spot_instance_training_o.Cluster.Events.{Event, Trace, instance_status_updated}
use spot_instance_training_o.Cluster.Prog.{◌>>=◌, pure}
use spot_instance_training_o.Cluster.Client.{Client}
use spot_instance_training_o.Cluster.Env.{Env}
use spot_instance_training_o.Cluster.Hoare.{
  Yields, Triple, Ensures-pure, Ensures-act, Ensures-bind, Ensures-branch, Keeps-then, Keeps-ask,
  Keeps-pure, Keeps-act, Triple-before,
}
use spot_instance_training_o.Gcp.Provisioner.{Provisioner}
use spot_instance_training_o.Gcp.Reads.{
  new_provisioner-Keeps, get_instance-Keeps, list_instances_by_prefix-Keeps,
}
use spot_instance_training_o.Gcp.Waiting.{Settling, Waits, Waits-total}
use spot_instance_training_o.InstanceController.Status.{
  basic_info, terminated, after_update, update_instance_status, mark_terminated, on_found, pointer,
  check_and_update_instance_status,
}
use spot_instance_training_o.InstanceController.Mirror.{
  Mirrors, preemption-Mirrors, join_node-JoinsFrom,
}
use spot_instance_training_o.InstanceController.Stable.{
  IsQuiet, IsStable, fetch_kubeadm_join_info-Keeps, provision_spot_instance-Keeps,
  fetch_instance_template-Keeps, fetch_gcp_credentials-Keeps, delete_node_if_named-Keeps,
}
use spot_instance_training_o.InstanceController.Provision.{
  record_provisioned, create_vm, adopt_or_create, provision_instance,
}
use spot_instance_training_o.InstanceController.Reconcile.{
  ensure_finalizer, ensure_state, sync_vm, reconcile_live, reconcile,
}

-- A status that says TERMINATED was sent, and accepted.
abbrev pub is_accepted_end : Event → Bool
is_accepted_end (instance_status_updated pi (ok updated)) = str_eq pi.status.state "TERMINATED"
is_accepted_end _ = false

-- The object is looked at again, or its status says for good that the VM is gone.
abbrev pub IsWatched : Outcome → Trace → Type 0
IsWatched out t = (is_over out ≡ false) ⊎ (any is_accepted_end t ≡ true)

ended-IsQuiet : IsQuiet (λ t. any is_accepted_end t ≡ true)
ended-IsQuiet = record { node = λ n a t h. h }

-- What the answer to an update of the status means for the trace.
abbrev Sent : Instance → Result ProvisionedInstance → Trace → Type 0
Sent i (err e) t = Unit
Sent i (ok updated) t = str_eq i.status "TERMINATED" ≡ true → any is_accepted_end t ≡ true

Sent-Mirrors :
    (i : Instance) (old : ProvisionedInstance) (pi : ProvisionedInstance)
    (a : Result ProvisionedInstance) (t : Trace)
    → Mirrors i old.status pi.status
    → Sent i a (instance_status_updated pi a ∷ t)
Sent-Mirrors i old pi (err e) t m = tt
Sent-Mirrors i old pi (ok updated) t m = λ ends. rw (m.state, ends) refl

-- Nothing is asked of the trace.
Anything : Trace → Type 0
Anything t = Unit

Anything-IsStable : IsStable Anything
unfolding Anything
Anything-IsStable = record {
  steady = record {
    quiet = record { node = λ n answer t h. tt };
    status = λ pi answer t noticed h. tt;
  };
  vm = λ project zone i answer t h. tt;
}

-- An outcome that asks for another look, or has an error.
again :
    {W : Type 0} {Z : Type 0} (out : Outcome)
    → is_over out ≡ false
    → Triple Z Anything (pure {W = W} out) IsWatched
again out h = Ensures-pure out (λ t _. inl h)

module _ {W : Type 0} (client : Client W) {Z : Type 0} where
  after_update-Watched :
      (i : Instance) (r : Result ProvisionedInstance)
      → Triple Z (Sent i r) (after_update client i r) IsWatched
  unfolding after_update
  after_update-Watched i (err e) = Ensures-pure _ (λ t _. inl refl)
  after_update-Watched i (ok updated) =
      Ensures-branch
        (λ ends.
          Triple-before (λ t sent. sent ends)
            (Keeps-then (delete_node_if_named-Keeps client ended-IsQuiet _)
              (λ _. Ensures-pure _ (λ t h. inr h))))
        (λ _. Ensures-pure _ (λ t _. inl refl))

  update_instance_status-Watched :
      (pi : ProvisionedInstance) (i : Instance)
      → Triple Z Anything (update_instance_status client pi i) IsWatched
  unfolding update_instance_status Anything
  update_instance_status-Watched pi i =
      Ensures-bind (join_node-JoinsFrom client i (basic_info i pi.status)) λ s.
        Ensures-bind {Q = Sent i}
          (Ensures-act _ _ (λ a t h. Sent-Mirrors i pi _ a t (preemption-Mirrors i pi.status s h)))
          (after_update-Watched i)

  mark_terminated-Watched :
      (pi : ProvisionedInstance) → Triple Z Anything (mark_terminated client pi) IsWatched
  unfolding mark_terminated
  mark_terminated-Watched pi =
      Keeps-then (delete_node_if_named-Keeps client Anything-IsStable.steady.quiet _) λ _.
        Ensures-bind {Q = Ended} (Ensures-act _ _ ended)
          elim [ err e ↦ Ensures-pure _ (λ t _. inl refl) | ok u ↦ Ensures-pure _ (λ t h. inr h) ]
    where
      Ended : Result ProvisionedInstance → Trace → Type 0
      Ended (err e) t = Unit
      Ended (ok updated) t = any is_accepted_end t ≡ true

      ended :
          (a : Result ProvisionedInstance) (t : Trace)
          → Anything t
          → Ended a (instance_status_updated (terminated pi) a ∷ t)
      ended (err e) t _ = tt
      ended (ok updated) t _ = refl

  on_found-Watched :
      (pi : ProvisionedInstance) (r : Result (Option Instance))
      → Triple Z Anything (on_found client pi r) IsWatched
  unfolding on_found
  on_found-Watched pi (err e) = Ensures-branch (λ _. mark_terminated-Watched pi) (λ _. again _ refl)
  on_found-Watched pi (ok none) = mark_terminated-Watched pi
  on_found-Watched pi (ok (some i)) = update_instance_status-Watched pi i

module _ {C S W : Type 0} (env : Env C S W) {Z : Type 0}
    (waits : Waits Z env.cloud env.patience) where
  record_provisioned-Watched :
      (pi : ProvisionedInstance) (i : Instance)
      → Triple Z Anything (record_provisioned env pi i) IsWatched
  unfolding record_provisioned Anything
  record_provisioned-Watched pi i = Keeps-then (Keeps-ask _) λ now.
      Keeps-then (Keeps-act _ _ (λ a t p. tt))
        elim [ err e ↦ Ensures-pure _ (λ t _. inl refl) | ok u ↦ Ensures-pure _ (λ t _. inl refl) ]

  adopt_or_create-Watched :
      (pi : ProvisionedInstance) (template : InstanceTemplate) (p : Provisioner S)
      (found : List Instance)
      → Triple Z Anything (adopt_or_create env pi template p found) IsWatched
  unfolding adopt_or_create create_vm
  adopt_or_create-Watched pi template p (i ∷ is) = update_instance_status-Watched env.client pi i
  adopt_or_create-Watched pi template p [] =
      Keeps-then (fetch_kubeadm_join_info-Keeps env.client Anything _) elim [
        | err e ↦ again _ refl
        | ok join ↦
            Keeps-then (provision_spot_instance-Keeps env Anything-IsStable waits p _ _ _)
              elim [ err e ↦ again _ refl | ok i ↦ record_provisioned-Watched pi i ]
      ]

  provision_instance-Watched :
      (pi : ProvisionedInstance) (template : InstanceTemplate) (p : Provisioner S)
      → Triple Z Anything (provision_instance env pi template p) IsWatched
  unfolding provision_instance
  provision_instance-Watched pi template p =
      Keeps-then (list_instances_by_prefix-Keeps env.cloud Anything p _ _)
        elim [ err e ↦ again _ refl | ok found ↦ adopt_or_create-Watched pi template p found ]

  check_and_update_instance_status-Watched :
      (pi : ProvisionedInstance) (template : InstanceTemplate) (p : Provisioner S)
      → Triple Z Anything (check_and_update_instance_status env pi template p) IsWatched
  unfolding check_and_update_instance_status
  check_and_update_instance_status-Watched pi template p =
      Keeps-then (get_instance-Keeps env.cloud Anything p _ _)
        (λ r. on_found-Watched env.client pi (pointer r))

  sync_vm-Watched : (pi : ProvisionedInstance) → Triple Z Anything (sync_vm env pi) IsWatched
  unfolding sync_vm
  sync_vm-Watched pi = Keeps-then (fetch_instance_template-Keeps env.client Anything pi) elim [
    | err e ↦ again _ refl
    | ok template ↦ Keeps-then (fetch_gcp_credentials-Keeps env.client Anything _) elim [
      | err e ↦ again _ refl
      | ok json ↦ Keeps-then (new_provisioner-Keeps env.cloud Anything json _) elim [
        | err e ↦ again _ refl
        | ok p ↦
            Ensures-branch (λ _. provision_instance-Watched pi template p)
              (λ _. check_and_update_instance_status-Watched pi template p)
      ]
    ]
  ]

  reconcile_live-Watched :
      (pi : ProvisionedInstance) → Triple Z Anything (reconcile_live env pi) IsWatched
  unfolding reconcile_live ensure_finalizer ensure_state Anything
  reconcile_live-Watched pi =
      Keeps-then (Ensures-branch (λ _. Keeps-pure _) (λ _. Keeps-act _ _ (λ a t h. tt))) elim [
        | err e ↦ Ensures-pure _ (λ t _. inl refl)
        | ok pi' ↦
            Keeps-then (Ensures-branch (λ _. Keeps-act _ _ (λ a t h. tt)) (λ _. Keeps-pure _))
              elim [ err e ↦ Ensures-pure _ (λ t _. inl refl) | ok pi'' ↦ sync_vm-Watched pi'' ]
      ]

-- A ProvisionedInstance that is found and is not being deleted: if every zone operation is done, or the
-- context of its wait ends, after a bounded number of looks, then `Reconcile` returns, whatever else is
-- answered. It answers with an error or with a time to look again, unless a status with the state
-- TERMINATED was accepted among the writes of this call.
pub reconcile-IsWatched :
    {C S W : Type 0} (env : Env C S W) (namespace name : String) (state : W)
    (pi : ProvisionedInstance) (s : W)
    → Settling env.cloud env.patience
    → env.client.get_instance namespace name state ≡ (ok pi, s)
    → is_deleting pi.meta ≡ false
    → Yields (reconcile env namespace name (record { state = state; trace = [] })) IsWatched
unfolding reconcile ◌>>=◌ Anything
reconcile-IsWatched env namespace name state pi s settling found lives =
    rw (found, lives)
      ((reconcile_live-Watched env (Waits-total env.cloud env.patience settling) pi).at
        (record { state = s; trace = [] }) tt)
