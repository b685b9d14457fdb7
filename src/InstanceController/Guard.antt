-- ===== src/InstanceController/Guard.antt =====
-- `handleDeletion` of a ProvisionedInstance: what must have gone before its finalizer goes.
pub mod Release
pub mod Kept
use spot_instance_training_o.Base.{
  ◌≡◌, refl, ◌⊎◌, inl, inr, Bool, true, false, String, [], ◌∷◌, ◌&&◌, str_eq, any, eq_refl, ◌||◌,
  contains, if◌then◌else◌,
}
use spot_instance_training_o.Api.Meta.{ObjectMeta}
use spot_instance_training_o.Api.Template.{InstanceTemplate}
use spot_instance_training_o.Api.Instance.{ProvisionedInstance}
use spot_instance_training_o.Api.Compute.{Operation}
use spot_instance_training_o.Cluster.Errors.{Error, Result, ok, err, wrap}
use spot_instance_training_o.Cluster.Events.{
  Event, Trace, instance_updated, vm_deleted, deletion_ended,
}
use spot_instance_training_o.Cluster.Prog.{World}
use spot_instance_training_o.Cluster.Client.{Client, Util, FinalizerLaws}
use spot_instance_training_o.Cluster.Env.{Env}
use spot_instance_training_o.Cluster.Hoare.{
  Yields, Triple, Preserves, Ensures-pure, Ensures-act, Ensures-bind, Ensures-branch, Keeps-then,
  Keeps-ask, Keeps-pure, Keeps-act,
}
use spot_instance_training_o.Gcp.Provisioner.{Provisioner, delete_instance, wrap_error}
use spot_instance_training_o.Gcp.Reads.{new_provisioner-Keeps}
use spot_instance_training_o.Gcp.Waiting.{Settling, Waits, Waits-total}
use spot_instance_training_o.InstanceController.Fetch.{is_empty}
use spot_instance_training_o.InstanceController.Status.{is_gone}
use spot_instance_training_o.InstanceController.Deletion.{
  provisioned_instance_finalizer, forgive_gone, delete_gcp_instance, release_vm, drop_finalizer,
  handle_deletion,
}
use spot_instance_training_o.InstanceController.Reconcile.{
  ensure_finalizer, ensure_state, sync_vm, reconcile_live, reconcile,
}
use spot_instance_training_o.InstanceController.Stable.{
  IsQuiet, IsStable, fetch_instance_template-Keeps, fetch_gcp_credentials-Keeps,
  delete_node_if_named-Keeps, check_and_update_instance_status-Keeps, provision_instance-Keeps,
}

-- Where a VM stands.
pub record Place : Type 0 where
  pub project : String
  pub zone : String

-- The place that each template names, by the template's namespace and name.
abbrev pub Places : Type 0
Places = String → String → Place

-- Each template that is read names its place: the project and the zone of a template do not change.
pub record TemplateLaw {W : Type 0} (client : Client W) (places : Places) : Type 0 where
  pub place :
      (namespace name : String) (s : W) (template : InstanceTemplate)
      → (client.get_template namespace name s).0 ≡ ok template
      → record { project = template.spec.gcp.project; zone = template.spec.gcp.zone }
        ≡ places namespace name

-- `RemoveFinalizer` does not move an object.
pub record NamespaceLaw (u : Util) : Type 0 where
  pub kept : (m : ObjectMeta) (f : String) → (u.remove_finalizer m f).namespace ≡ m.namespace

-- The place of the object's VM: that of its template, which is in the object's own namespace if no other
-- is given.
abbrev pub place_of : Places → ProvisionedInstance → Place
place_of places pi =
    places
      (if str_eq pi.spec.instance_template_namespace ""
        then pi.meta.namespace
        else pi.spec.instance_template_namespace)
      pi.spec.instance_template_name

-- The text of the error has the word or the number by which a missing VM is told.
abbrev pub says_gone : Error → Bool
says_gone e = contains e.message "notFound" || contains e.message "404"

abbrev pub is_at : Place → String → String → Bool
is_at place project zone = str_eq project place.project && str_eq zone place.zone

-- The VM of that place and name is deleted: the wait for its deletion ended without an error, or the
-- deletion or the wait ended in an error whose text says that it is gone.
abbrev pub releases : Place → String → Event → Bool
releases place name (vm_deleted project zone vm (err e)) =
    is_at place project zone && str_eq vm name && says_gone (wrap "failed to delete instance" e)
releases place name (deletion_ended project zone vm (ok _)) =
    is_at place project zone && str_eq vm name
releases place name (deletion_ended project zone vm (err e)) =
    is_at place project zone
    && str_eq vm name
    && says_gone (wrap "failed to wait for delete operation" e)
releases place name _ = false

abbrev pub IsReleased : Place → String → Trace → Type 0
IsReleased place name t = any (releases place name) t ≡ true

-- The deletion of the VM was accepted.
abbrev pub accepts : Place → String → Event → Bool
accepts place name (vm_deleted project zone vm (ok _)) = is_at place project zone && str_eq vm name
accepts place name _ = false

module _ (u : Util) (places : Places) where
  -- What must have gone before an event.
  abbrev pub IsAllowed : Event → Trace → Type 0
  IsAllowed (instance_updated pi answer) t =
      (u.contains_finalizer pi.meta "training.dcnlab.com/provisionedinstance-finalizer" ≡ true)
      ⊎ (str_eq pi.status.instance_name "" ≡ true)
      ⊎ IsReleased (place_of places pi) pi.status.instance_name t
  IsAllowed (deletion_ended project zone name result) t =
      any (accepts (record { project = project; zone = zone }) name) t ≡ true
  IsAllowed _ t = Unit

  abbrev pub IsGuarded : Trace → Type 0
  IsGuarded [] = Unit
  IsGuarded (e ∷ t) = IsAllowed e t × IsGuarded t

  pub IsGuarded-IsStable : IsStable IsGuarded
  IsGuarded-IsStable = record {
    steady = record {
      quiet = record { node = λ n answer t g. (tt, g) };
      status = λ pi answer t noticed g. (tt, g);
    };
    vm = λ project zone i answer t g. (tt, g);
  }

  -- No VM is recorded, or it is released.
  abbrev pub IsFree : ProvisionedInstance → Trace → Type 0
  IsFree pi t =
      (str_eq pi.status.instance_name "" ≡ true)
      ⊎ IsReleased (place_of places pi) pi.status.instance_name t

  pub IsFree-IsQuiet : (pi : ProvisionedInstance) → IsQuiet (λ t. IsFree pi t × IsGuarded t)
  IsFree-IsQuiet pi = record { node = λ n answer t g. (g.0, (tt, g.1)) }

-- What an answer that counts as success says of the trace.
abbrev pub IfOk : Result (Unit {0}) → (Trace → Type 0) → Trace → Type 0
IfOk (ok _) P t = P t
IfOk (err _) P t = Unit

forgiven_if :
    (b : Bool) (e : Error) (P : Trace → Type 0) (t : Trace)
    → (b ≡ true → P t)
    → IfOk (if b then ok tt else err e) P t
forgiven_if true e P t h = h refl
forgiven_if false e P t h = tt

pub forgiven :
    (e : Error) (P : Trace → Type 0) (t : Trace)
    → (is_gone e ≡ true → P t)
    → IfOk (forgive_gone (err e)) P t
unfolding forgive_gone
forgiven e P t h = forgiven_if (is_gone e) e P t h

pub IfOk-intro : (r : Result (Unit {0})) (P : Trace → Type 0) (t : Trace) → P t → IfOk r P t
IfOk-intro (ok _) P t h = h
IfOk-intro (err e) P t h = tt

pub IfOk-map :
    (r : Result (Unit {0})) (P Q : Trace → Type 0) (t : Trace)
    → (P t → Q t)
    → IfOk r P t
    → IfOk r Q t
IfOk-map (ok _) P Q t f h = f h
IfOk-map (err e) P Q t f h = tt
