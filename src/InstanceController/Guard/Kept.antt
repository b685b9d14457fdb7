-- ===== src/InstanceController/Guard/Kept.antt =====
-- `Reconcile` of a ProvisionedInstance and its finalizer.
use mathlib.Core.Path.{subst, sym}
use spot_instance_training_o.Base.{◌≡◌, ap, inl, inr, String, []}
use spot_instance_training_o.Cluster.Events.{Trace}
use spot_instance_training_o.Api.Instance.{ProvisionedInstance}
use spot_instance_training_o.Cluster.Errors.{ok, err}
use spot_instance_training_o.Cluster.Client.{FinalizerLaws}
use spot_instance_training_o.Cluster.Env.{Env}
use spot_instance_training_o.Cluster.Hoare.{
  Yields, Triple, Preserves, Ensures-pure, Ensures-act, Ensures-bind, Ensures-branch, Keeps-then,
  Keeps-ask, Keeps-pure, Keeps-act,
}
use spot_instance_training_o.Gcp.Waiting.{Settling, Waits, Waits-total}
use spot_instance_training_o.InstanceController.Deletion.{
  provisioned_instance_finalizer, without_finalizer, drop_finalizer, handle_deletion,
}
use spot_instance_training_o.InstanceController.Reconcile.{
  ensure_finalizer, ensure_state, reconcile_live, reconcile,
}
use spot_instance_training_o.InstanceController.Stable.{delete_node_if_named-Keeps}
use spot_instance_training_o.InstanceController.Stable.Synced.{sync_vm-Keeps}
use spot_instance_training_o.InstanceController.Guard.{
  Places, NamespaceLaw, TemplateLaw, place_of, IsReleased, IsGuarded, IsGuarded-IsStable, IsFree,
  IsFree-IsQuiet,
}
use spot_instance_training_o.InstanceController.Guard.Release.{release_vm-Ensures}

module _ {C S W : Type 0} (env : Env C S W) (places : Places) (moves : NamespaceLaw env.util)
    (templates : TemplateLaw env.client places) where
  -- Without its finalizer the object has the same VM.
  place_of-without_finalizer :
      (pi : ProvisionedInstance) → place_of places pi ≡ place_of places (without_finalizer env pi)
  place_of-without_finalizer pi = sym (
      ap (λ n. place_of places (record pi { meta = record pi.meta { namespace = n } }))
        (moves.kept pi.meta provisioned_instance_finalizer))

  without_finalizer-IsFree :
      (pi : ProvisionedInstance) (t : Trace)
      → IsFree env.util places pi t
      → IsFree env.util places (without_finalizer env pi) t
  without_finalizer-IsFree pi t (inl none) = inl none
  without_finalizer-IsFree pi t (inr gone) =
      inr (subst (λ l. IsReleased l pi.status.instance_name t) (place_of-without_finalizer pi) gone)

  module _ {Z : Type 0} (waits : Waits Z env.cloud env.patience) where
    drop_finalizer-Keeps :
        (pi : ProvisionedInstance)
        → Triple Z
            (λ t. IsFree env.util places pi t × IsGuarded env.util places t)
            (drop_finalizer env pi)
            (λ _. IsGuarded env.util places)
    unfolding drop_finalizer
    drop_finalizer-Keeps pi =
        Ensures-bind {Q = λ _. IsGuarded env.util places}
          (Ensures-act _ _ (λ a t g. (inr (without_finalizer-IsFree pi t g.0), g.1)))
          (λ r. Keeps-pure _)

    handle_deletion-Keeps :
        (pi : ProvisionedInstance)
        → Preserves Z (IsGuarded env.util places) (handle_deletion env pi)
    unfolding handle_deletion
    handle_deletion-Keeps pi =
        Ensures-branch
          (λ _. Ensures-bind (release_vm-Ensures env places waits templates pi) elim [
            | err e ↦ Ensures-pure _ (λ t g. g.1)
            | ok _ ↦
                Keeps-then
                  (delete_node_if_named-Keeps env.client (IsFree-IsQuiet env.util places pi) _)
                  (λ _. drop_finalizer-Keeps pi)
          ])
          (λ _. Keeps-pure _)

    module _ (laws : FinalizerLaws env.util) where
      ensure_finalizer-Keeps :
          (pi : ProvisionedInstance)
          → Preserves Z (IsGuarded env.util places) (ensure_finalizer env pi)
      unfolding ensure_finalizer
      ensure_finalizer-Keeps pi =
          Ensures-branch (λ _. Keeps-pure _)
            (λ _. Keeps-act _ _ (λ a t g. (inl (laws.added _ _), g)))

      ensure_state-Keeps :
          (pi : ProvisionedInstance) → Preserves Z (IsGuarded env.util places) (ensure_state env pi)
      unfolding ensure_state
      ensure_state-Keeps pi =
          Ensures-branch (λ _. Keeps-act _ _ (λ a t g. (tt, g))) (λ _. Keeps-pure _)

      reconcile_live-Keeps :
          (pi : ProvisionedInstance)
          → Preserves Z (IsGuarded env.util places) (reconcile_live env pi)
      unfolding reconcile_live
      reconcile_live-Keeps pi = Keeps-then (ensure_finalizer-Keeps pi) elim [
        | err e ↦ Keeps-pure _
        | ok pi' ↦ Keeps-then (ensure_state-Keeps pi') elim [
          | err e ↦ Keeps-pure _
          | ok pi'' ↦ sync_vm-Keeps env (IsGuarded-IsStable env.util places) waits pi''
        ]
      ]

      pub reconcile-Keeps :
          (namespace name : String)
          → Preserves Z (IsGuarded env.util places) (reconcile env namespace name)
      unfolding reconcile
      reconcile-Keeps namespace name = Keeps-then (Keeps-ask _) elim [
        | err e ↦ Keeps-pure _
        | ok pi ↦ Ensures-branch (λ _. handle_deletion-Keeps pi) (λ _. reconcile_live-Keeps pi)
      ]

-- If the finalizer functions do what they document and keep the namespace, each template that is read
-- names the project and the zone that `places` says, and every zone operation is done, or the context of
-- its wait ends, after a bounded number of looks: then every call of the VM controller's `Reconcile`
-- returns, whatever else Kubernetes and Compute Engine answer. If an object that records a VM loses its
-- finalizer, then before that write the same call asked for the deletion of the VM of that name in the
-- project and the zone of the object's template, and either the deletion was accepted and the wait for
-- it ended without an error, or one of the two was answered by an error whose text has `notFound` or
-- `404`.
pub reconcile-IsGuarded :
    {C S W : Type 0} (env : Env C S W) (places : Places)
    → FinalizerLaws env.util
    → NamespaceLaw env.util
    → TemplateLaw env.client places
    → Settling env.cloud env.patience
    → (namespace name : String) (state : W)
    → Yields
        (reconcile env namespace name (record { state = state; trace = [] }))
        (λ _ t. IsGuarded env.util places t)
reconcile-IsGuarded env places laws moves templates settling namespace name state =
    (reconcile-Keeps env places moves templates (Waits-total env.cloud env.patience settling) laws
        namespace name).at
      (record { state = state; trace = [] }) tt
