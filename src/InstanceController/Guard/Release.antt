-- ===== src/InstanceController/Guard/Release.antt =====
-- `deleteGCPInstance`: what it leaves in the trace.
use mathlib.Core.Path.{subst}
use spot_instance_training_o.Base.{
  ◌≡◌, refl, inl, inr, true, ◌&&◌, String, ◌∷◌, any, str_eq, eq_refl,
}
use spot_instance_training_o.Api.Template.{InstanceTemplate}
use spot_instance_training_o.Api.Instance.{ProvisionedInstance}
use spot_instance_training_o.Api.Compute.{Operation}
use spot_instance_training_o.Cluster.Errors.{Result, ok, err, wrap}
use spot_instance_training_o.Cluster.Events.{Trace, vm_deleted, deletion_ended}
use spot_instance_training_o.Cluster.Env.{Env}
use spot_instance_training_o.Cluster.Hoare.{
  Triple, Ensures-pure, Ensures-act, Ensures-ask_of, Ensures-bind, Ensures-known, Ensures-branch,
  Keeps-then,
}
use spot_instance_training_o.Gcp.Provisioner.{Provisioner, delete_instance, wrap_error}
use spot_instance_training_o.Gcp.Reads.{new_provisioner-Keeps}
use spot_instance_training_o.Gcp.Waiting.{Waits}
use spot_instance_training_o.InstanceController.Fetch.{fetch_instance_template}
use spot_instance_training_o.InstanceController.Status.{is_gone}
use spot_instance_training_o.InstanceController.Deletion.{
  forgive_gone, delete_gcp_instance, release_vm,
}
use spot_instance_training_o.InstanceController.Stable.{fetch_gcp_credentials-Keeps}
use spot_instance_training_o.InstanceController.Guard.{
  Place, Places, TemplateLaw, place_of, is_at, accepts, IsReleased, IsGuarded, IsFree, IfOk,
  forgiven, IfOk-map,
}

module _ (place : Place) (name : String) where
  at_here : (is_at place place.project place.zone && str_eq name name) ≡ true
  at_here = rw (eq_refl place.project, eq_refl place.zone, eq_refl name) refl

  -- What the answer to the deletion says of the trace.
  abbrev Known : Result Operation → Trace → Type 0
  Known (ok op) t = any (accepts place name) t ≡ true
  Known (err e) t = is_gone (wrap "failed to delete instance" e) ≡ true → IsReleased place name t

  answered :
      (a : Result Operation) (t : Trace) → Known a (vm_deleted place.project place.zone name a ∷ t)
  answered (ok op) t = rw at_here refl
  answered (err e) t = λ gone. rw (at_here, gone) refl

  ended :
      (r : Result (Unit {0})) (t : Trace)
      → IfOk
          (forgive_gone (wrap_error "failed to wait for delete operation" r))
          (IsReleased place name)
          (deletion_ended place.project place.zone name r ∷ t)
  unfolding wrap_error forgive_gone
  ended (ok _) t = rw at_here refl
  ended (err e) t =
      forgiven (wrap "failed to wait for delete operation" e) (IsReleased place name) _
        (λ gone. rw (at_here, gone) refl)

module _ {C S W : Type 0} (env : Env C S W) (places : Places) where
  abbrev pub Freed : ProvisionedInstance → Result (Unit {0}) → Trace → Type 0
  Freed pi r t = IfOk r (IsFree env.util places pi) t × IsGuarded env.util places t

  -- The template that was read names the place of the object's VM.
  abbrev Placed : ProvisionedInstance → Result InstanceTemplate → Type 0
  Placed pi a =
      (template : InstanceTemplate)
      → a ≡ ok template
      → record { project = template.spec.gcp.project; zone = template.spec.gcp.zone }
        ≡ place_of places pi

  module _ {Z : Type 0} (waits : Waits Z env.cloud env.patience) where
    delete_instance-Ensures :
        (p : Provisioner S) (place : Place) (name : String)
        → Triple Z
            (IsGuarded env.util places)
            (delete_instance env.cloud env.patience p place.project place.zone name)
            (λ r t. IfOk (forgive_gone r) (IsReleased place name) t × IsGuarded env.util places t)
    unfolding delete_instance
    delete_instance-Ensures p place name =
        Ensures-bind {Q = λ a t. Known place name a t × IsGuarded env.util places t}
          (Ensures-act _ _ (λ a t g. (answered place name a t, (tt, g))))
          elim [
            | err e ↦ Ensures-pure _ (λ t g.
                (forgiven (wrap "failed to delete instance" e) (IsReleased place name) t g.0, g.1))
            | ok op ↦ Keeps-then (waits.keeps _ p op place.zone) (λ r.
                Ensures-bind
                  {Q = λ _ t.
                    IfOk (forgive_gone (wrap_error "failed to wait for delete operation" r))
                      (IsReleased place name) t
                    × IsGuarded env.util places t}
                  (Ensures-act _ _ (λ _ t g. (ended place name r t, g)))
                  (λ _. Ensures-pure _ (λ t g. g)))
          ]

    delete_gcp_instance-Ensures :
        TemplateLaw env.client places
        → (pi : ProvisionedInstance)
        → Triple Z (IsGuarded env.util places) (delete_gcp_instance env pi) (Freed pi)
    unfolding delete_gcp_instance fetch_instance_template
    delete_gcp_instance-Ensures law pi =
        Ensures-known (Placed pi)
          (Ensures-ask_of (Placed pi) _ (λ s. law.place _ _ s) (λ a t known g. (known, g)))
          elim [
            | err e ↦ λ known. Ensures-pure _ (λ t g. (tt, g))
            | ok template ↦ λ known. Keeps-then (fetch_gcp_credentials-Keeps env.client _ _) elim [
              | err e ↦ Ensures-pure _ (λ t g. (tt, g))
              | ok json ↦ Keeps-then (new_provisioner-Keeps env.cloud _ json _) elim [
                | err e ↦ Ensures-pure _ (λ t g. (tt, g))
                | ok p ↦
                    Ensures-bind
                      (delete_instance-Ensures p
                        (record {
                          project = template.spec.gcp.project;
                          zone = template.spec.gcp.zone;
                        })
                        pi.status.instance_name)
                      (λ r. Ensures-pure _ (λ t g. (
                        IfOk-map (forgive_gone r) _ (IsFree env.util places pi) t
                            (λ h. inr (
                              subst (λ l. IsReleased l pi.status.instance_name t)
                                (known template refl) h))
                            g.0,
                        g.1,
                      )))
              ]
            ]
          ]

    pub release_vm-Ensures :
        TemplateLaw env.client places
        → (pi : ProvisionedInstance)
        → Triple Z (IsGuarded env.util places) (release_vm env pi) (Freed pi)
    unfolding release_vm
    release_vm-Ensures law pi =
        Ensures-branch (λ h. Ensures-pure _ (λ t g. (inl h, g)))
          (λ _. delete_gcp_instance-Ensures law pi)
