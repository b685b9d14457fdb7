-- ===== src/InstanceController/Departure.antt =====
-- `handleDeletion` of a ProvisionedInstance where nothing is refused: the object lets go.
pub mod Removal
use spot_instance_training_o.Base.{
  ℕ, zero, suc, ◌≡◌, refl, true, false, String, Option, none, some, ◌∷◌,
}
use spot_instance_training_o.Api.Meta.{is_deleting, label}
use spot_instance_training_o.Api.Template.{InstanceTemplate}
use spot_instance_training_o.Api.Instance.{ProvisionedInstance}
use spot_instance_training_o.Api.Kube.{Secret}
use spot_instance_training_o.Api.Compute.{Operation}
use spot_instance_training_o.Cluster.Errors.{Result, ok, err, Outcome, finished}
use spot_instance_training_o.Cluster.Events.{Trace, instance_updated}
use spot_instance_training_o.Cluster.Prog.{World, Prog, ask, ◌>>=◌}
use spot_instance_training_o.Cluster.Env.{Env}
use spot_instance_training_o.Cluster.Client.{FinalizerLaws}
use spot_instance_training_o.Cluster.Hoare.{
  Yields, Triple, Delivers, Outcome as Ends, Ensures-pure, Ensures-act_of, Ensures-ask_of,
  Ensures-bind, Ensures-branch, Ensures-stuck, Keeps-then, Triple-of, Triple-before, Triple-then,
  Triple-answers, Triple-ended,
}
use spot_instance_training_o.Gcp.Provisioner.{
  Provisioner, wait_for_operation, new_provisioner, delete_instance,
}
use spot_instance_training_o.Gcp.Waiting.{Settling, Waits-total}
use spot_instance_training_o.InstanceController.Fetch.{
  template_namespace, fetch_instance_template, fetch_gcp_credentials,
}
use spot_instance_training_o.InstanceController.Deletion.{
  provisioned_instance_finalizer, without_finalizer, delete_gcp_instance, release_vm,
  drop_finalizer, handle_deletion,
}
use spot_instance_training_o.InstanceController.Reconcile.{reconcile}
use spot_instance_training_o.InstanceController.Stable.{delete_node_if_named-Keeps}
use spot_instance_training_o.InstanceController.Departure.Removal.{Accepts, release_vm-Succeeds}

-- The last write takes the finalizer off, and is accepted.
abbrev pub LetsGo : {C S W : Type 0} → Env C S W → ProvisionedInstance → Outcome → Trace → Type 0
LetsGo env pi out t =
    (out ≡ finished)
    × (before : Trace) × (t
        ≡ instance_updated (without_finalizer env pi) (ok (without_finalizer env pi)) ∷ before)

module _ {C S W : Type 0} (env : Env C S W) (pi : ProvisionedInstance) (accepts : Accepts env pi)
    (settling : Settling env.cloud env.patience) where
  drop_finalizer-LetsGo : Delivers (λ t. Unit) (drop_finalizer env pi) (LetsGo env pi)
  unfolding drop_finalizer
  drop_finalizer-LetsGo =
      Ensures-bind
        {Q = λ a t.
          (a ≡ ok (without_finalizer env pi))
          × (before : Trace) × (t
              ≡ instance_updated (without_finalizer env pi) (ok (without_finalizer env pi))
                ∷ before)}
        (Ensures-act_of (λ a. a ≡ ok (without_finalizer env pi)) _ _ (accepts.updates _)
          (λ a t e p. (e, t, rw e refl)))
        (λ a. Ensures-pure _ (λ t h. (rw (h.0) refl, h.1, h.2)))

  handle_deletion-LetsGo :
      env.util.contains_finalizer pi.meta provisioned_instance_finalizer ≡ true
      → Delivers (λ t. Unit) (handle_deletion env pi) (LetsGo env pi)
  unfolding handle_deletion
  handle_deletion-LetsGo has =
      Ensures-branch
        (λ _. Triple-then (ok tt) _ (release_vm-Succeeds env pi accepts settling) (
          Keeps-then (delete_node_if_named-Keeps env.client (record { node = λ n a t h. tt }) _)
            (λ _. drop_finalizer-LetsGo)))
        (λ lacks. absurd (cc (has, lacks)))

  reconcile-Delivers :
      (namespace name : String)
      → ((s : W) → (env.client.get_instance namespace name s).0 ≡ ok pi)
      → is_deleting pi.meta ≡ true
      → env.util.contains_finalizer pi.meta provisioned_instance_finalizer ≡ true
      → Delivers (λ t. Unit) (reconcile env namespace name) (LetsGo env pi)
  unfolding reconcile
  reconcile-Delivers namespace name found leaving has =
      Triple-then (ok pi) _ (Triple-answers _ _ found)
        (Ensures-branch (λ _. handle_deletion-LetsGo has) (λ stays. absurd (cc (leaving, stays))))

-- A ProvisionedInstance that is being deleted and has the finalizer, where none of the calls that its
-- deletion makes is refused, every zone operation is done after a bounded number of looks, and none
-- ends in an error, whatever the reads and the deletion of its node answer: one `Reconcile` returns
-- without an error, and its last write takes the finalizer off, which the object does not have then.
pub reconcile-LetsGo :
    {C S W : Type 0} (env : Env C S W) (pi : ProvisionedInstance) (namespace name : String)
    (w : World W) (accepts : Accepts env pi) (settling : Settling env.cloud env.patience)
    → FinalizerLaws env.util
    → ((s : W) → (env.client.get_instance namespace name s).0 ≡ ok pi)
    → is_deleting pi.meta ≡ true
    → env.util.contains_finalizer pi.meta provisioned_instance_finalizer ≡ true
    → Yields (reconcile env namespace name w) (LetsGo env pi)
      × (env.util.contains_finalizer (without_finalizer env pi).meta provisioned_instance_finalizer
          ≡ false)
reconcile-LetsGo env pi namespace name w accepts settling laws found leaving has = (
  (reconcile-Delivers env pi accepts settling namespace name found leaving has).at w tt,
  laws.removed pi.meta provisioned_instance_finalizer,
)
