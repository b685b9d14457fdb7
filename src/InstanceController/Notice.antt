-- ===== src/InstanceController/Notice.antt =====
-- The preemption notice in each status that the controller of VMs sends.
use spot_instance_training_o.Base.{String, [], ◌∷◌}
use spot_instance_training_o.Api.Instance.{ProvisionedInstance}
use spot_instance_training_o.Cluster.Errors.{ok, err}
use spot_instance_training_o.Cluster.Events.{Trace, instance_status_updated}
use spot_instance_training_o.Cluster.Prog.{World}
use spot_instance_training_o.Cluster.Env.{Env}
use spot_instance_training_o.Cluster.Hoare.{
  Yields, Preserves, Ensures-branch, Keeps-then, Keeps-ask, Keeps-pure, Keeps-act,
}
use spot_instance_training_o.Gcp.Provisioner.{delete_instance}
use spot_instance_training_o.Gcp.Reads.{new_provisioner-Keeps}
use spot_instance_training_o.Gcp.Waiting.{Settling, Waits, Waits-total}
use spot_instance_training_o.InstanceController.Deletion.{
  delete_gcp_instance, release_vm, drop_finalizer, handle_deletion,
}
use spot_instance_training_o.InstanceController.Reconcile.{
  ensure_finalizer, ensure_state, reconcile_live, reconcile,
}
use spot_instance_training_o.InstanceController.Stable.{
  IsStable, fetch_instance_template-Keeps, fetch_gcp_credentials-Keeps, delete_node_if_named-Keeps,
}
use spot_instance_training_o.InstanceController.Mirror.{IsNoticed}
use spot_instance_training_o.InstanceController.Stable.Synced.{sync_vm-Keeps}

-- All the statuses that were sent have the notice where they should.
abbrev pub AllNoticed : Trace → Type 0
AllNoticed [] = Unit
AllNoticed (instance_status_updated pi answer ∷ t) = IsNoticed pi.status × AllNoticed t
AllNoticed (e ∷ t) = AllNoticed t

AllNoticed-IsStable : IsStable AllNoticed
AllNoticed-IsStable = record {
  steady = record {
    quiet = record { node = λ n answer t h. h };
    status = λ pi answer t noticed h. (noticed, h);
  };
  vm = λ project zone i answer t h. h;
}

module _ {C S W : Type 0} (env : Env C S W) {Z : Type 0}
    (waits : Waits Z env.cloud env.patience) where
  delete_gcp_instance-Keeps :
      (pi : ProvisionedInstance) → Preserves Z AllNoticed (delete_gcp_instance env pi)
  unfolding delete_gcp_instance delete_instance
  delete_gcp_instance-Keeps pi =
      Keeps-then (fetch_instance_template-Keeps env.client AllNoticed pi) elim [
        | err e ↦ Keeps-pure _
        | ok template ↦ Keeps-then (fetch_gcp_credentials-Keeps env.client AllNoticed _) elim [
          | err e ↦ Keeps-pure _
          | ok json ↦ Keeps-then (new_provisioner-Keeps env.cloud AllNoticed json _) elim [
            | err e ↦ Keeps-pure _
            | ok p ↦
                Keeps-then
                  (Keeps-then (Keeps-act _ _ (λ a t h. h)) elim [
                    | err e ↦ Keeps-pure _
                    | ok op ↦
                        Keeps-then (waits.keeps AllNoticed p op _)
                          (λ r. Keeps-then (Keeps-act _ _ (λ a t h. h)) (λ _. Keeps-pure _))
                  ])
                  (λ r. Keeps-pure _)
          ]
        ]
      ]

  handle_deletion-Keeps :
      (pi : ProvisionedInstance) → Preserves Z AllNoticed (handle_deletion env pi)
  unfolding handle_deletion release_vm drop_finalizer
  handle_deletion-Keeps pi =
      Ensures-branch
        (λ _.
          Keeps-then (Ensures-branch (λ _. Keeps-pure _) (λ _. delete_gcp_instance-Keeps pi)) elim [
            | err e ↦ Keeps-pure _
            | ok _ ↦
                Keeps-then
                  (delete_node_if_named-Keeps env.client AllNoticed-IsStable.steady.quiet _)
                  (λ _. Keeps-then (Keeps-act _ _ (λ a t h. h)) (λ _. Keeps-pure _))
          ])
        (λ _. Keeps-pure _)

  reconcile_live-Keeps : (pi : ProvisionedInstance) → Preserves Z AllNoticed (reconcile_live env pi)
  unfolding reconcile_live ensure_finalizer ensure_state
  reconcile_live-Keeps pi =
      Keeps-then (Ensures-branch (λ _. Keeps-pure _) (λ _. Keeps-act _ _ (λ a t h. h))) elim [
        | err e ↦ Keeps-pure _
        | ok pi' ↦
            Keeps-then
              (Ensures-branch (λ _. Keeps-act _ _ (λ a t h. ((λ ending. absurd (cc ending)), h)))
                (λ _. Keeps-pure _))
              elim [
                | err e ↦ Keeps-pure _
                | ok pi'' ↦ sync_vm-Keeps env AllNoticed-IsStable waits pi''
              ]
      ]

  pub reconcile-Keeps :
      (namespace name : String) → Preserves Z AllNoticed (reconcile env namespace name)
  unfolding reconcile
  reconcile-Keeps namespace name = Keeps-then (Keeps-ask _) elim [
    | err e ↦ Keeps-pure _
    | ok pi ↦ Ensures-branch (λ _. handle_deletion-Keeps pi) (λ _. reconcile_live-Keeps pi)
  ]

-- If every zone operation is done, or the context of its wait ends, after a bounded number of looks,
-- then a `Reconcile` of the controller of VMs returns, whatever is answered, and keeps this: each
-- status that was sent with the state STOPPING or TERMINATED has the preemption notice, by which the
-- training controller knows the instance as preempted.
pub reconcile-AllNoticed :
    {C S W : Type 0} (env : Env C S W) (namespace name : String) (w : World W)
    → Settling env.cloud env.patience
    → AllNoticed w.trace
    → Yields (reconcile env namespace name w) (λ _ t. AllNoticed t)
reconcile-AllNoticed env namespace name w settling h =
    (reconcile-Keeps env (Waits-total env.cloud env.patience settling) namespace name).at w h
