-- ===== src/TrainingController/Instances/Scale.antt =====
-- `reconcileProvisionedInstances` over an API server that keeps what is created, against an abstract
-- view of it: the number of active instances of a training job.
pub mod Settles
use spot_instance_training_o.Base.{
  ℕ, zero, suc, ◌+◌, ◌-◌, ◌*◌, ◌≤◌, ◌<◌, ◌≡◌, refl, true, false, Bool, ◌&&◌, Option, none, some,
  List, [], ◌∷◌, String, ℤ, pos, ltb, ltb_ℤ, count, any, select, i32_max, to_int32_exact,
  sub32_exact, add32_exact, double32_exact, arith, str_eq, eq_refl, decimal_ℤ, if◌then◌else◌, inl,
  inr, Bool-cases,
}
use spot_instance_training_o.Api.Meta.{ObjectMeta, Labels, label}
use spot_instance_training_o.Api.Template.{InstanceTemplate}
use spot_instance_training_o.Api.Instance.{ProvisionedInstance}
use spot_instance_training_o.Api.Training.{SpotInstanceJob}
use spot_instance_training_o.Cluster.Errors.{ok, err}
use spot_instance_training_o.Cluster.Prog.{World, ◌>>=◌, ask, act, branch, pure}
use spot_instance_training_o.Cluster.Env.{Env}
use spot_instance_training_o.TrainingController.Names.{desired_replicas, owned_by, replica_of}
use spot_instance_training_o.TrainingController.Indices.{take_index}
use spot_instance_training_o.TrainingController.Indices.Search.{Found, skip_taken-Found}
use spot_instance_training_o.TrainingController.Instances.{
  is_active, is_terminated, new_instance, taken_indices, create_missing, must_wait,
  reconcile_provisioned_instances,
}

-- What `client.MatchingLabels` selects.
abbrev has_value : String → Option String → Bool
has_value v none = false
has_value v (some u) = str_eq u v

abbrev pub matches : Labels → Labels → Bool
matches [] m = true
matches ((k, v) ∷ selector) m = has_value v (label k m) && matches selector m

-- What `List` answers of the stored objects.
abbrev pub listed_in : String → Labels → List ProvisionedInstance → List ProvisionedInstance
listed_in namespace selector items =
    select (λ pi. str_eq pi.meta.namespace namespace && matches selector pi.meta.labels) items

-- The object as the API server keeps it.
pub record IsCopy (made pi : ProvisionedInstance) : Type 0 where
  pub namespace : made.meta.namespace ≡ pi.meta.namespace
  pub labels : made.meta.labels ≡ pi.meta.labels
  pub deletion : made.meta.deletion_timestamp ≡ pi.meta.deletion_timestamp
  pub status : made.status ≡ pi.status

-- An API server that keeps what is created and creates all that it is asked for, used by no one else
-- in the meantime.
pub record Store {C S W : Type 0} (env : Env C S W) : Type 0 where
  pub stored : W → List ProvisionedInstance
  pub lists :
      (namespace : String) (selector : Labels) (s : W)
      → env.client.list_instances namespace selector s
        ≡ (ok (listed_in namespace selector (stored s)), s)
  pub creates :
      (pi : ProvisionedInstance) (s : W)
      → (made : ProvisionedInstance) × (s' : W) × (env.client.create_instance pi s ≡ (ok made, s'))
        × (stored s' ≡ made ∷ stored s)
        × IsCopy made pi
  pub tells_time : (s : W) → stored (env.client.now s).1 ≡ stored s
  pub owns :
      (owner m : ObjectMeta)
      → (m' : ObjectMeta) × (env.util.set_controller_reference owner m ≡ ok m')
        × (m'.namespace ≡ m.namespace)
        × (m'.labels ≡ m.labels)
        × (m'.deletion_timestamp ≡ m.deletion_timestamp)

-- The abstract view: so many active instances; and the abstract operation.
abbrev pub active_of : SpotInstanceJob → List ProvisionedInstance → ℕ
active_of sj items = count is_active (listed_in sj.meta.namespace (owned_by sj) items)

abbrev pub scale_to : ℕ → ℕ → ℕ
scale_to desired active = if ltb active desired then desired else active

abbrev pub IsCalm : SpotInstanceJob → List ProvisionedInstance → Type 0
IsCalm sj items = any is_terminated (listed_in sj.meta.namespace (owned_by sj) items) ≡ false

module _ (sj : SpotInstanceJob) (template : InstanceTemplate) (index : ℤ) (now : ℕ)
    (m' : ObjectMeta) (made : ProvisionedInstance)
    (place : m'.namespace ≡ (new_instance sj template index now).meta.namespace)
    (kept : m'.labels ≡ (new_instance sj template index now).meta.labels)
    (stays : m'.deletion_timestamp ≡ (new_instance sj template index now).meta.deletion_timestamp)
    (copy : IsCopy made (record (new_instance sj template index now) { meta = m' })) where
  made-matches :
      (str_eq made.meta.namespace sj.meta.namespace && matches (owned_by sj) made.meta.labels)
      ≡ true
  unfolding new_instance label
  made-matches =
      rw (copy.namespace, place, copy.labels, kept, eq_refl sj.meta.namespace, eq_refl sj.meta.name)
        refl

  made-is_active : is_active made ≡ true
  unfolding new_instance
  made-is_active = rw (copy.status, copy.deletion, stays) refl

  made-is_terminated : is_terminated made ≡ false
  unfolding new_instance
  made-is_terminated = rw (copy.status) refl

  pub active_of-made :
      (items : List ProvisionedInstance) → active_of sj (made ∷ items) ≡ suc (active_of sj items)
  active_of-made items = rw (made-matches, made-is_active) refl

  pub IsCalm-made : (items : List ProvisionedInstance) → IsCalm sj items → IsCalm sj (made ∷ items)
  IsCalm-made items calm = rw (made-matches, made-is_terminated) calm
