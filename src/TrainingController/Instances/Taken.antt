-- ===== src/TrainingController/Instances/Taken.antt =====
-- The map of the replica indices of the instances, against a description of it.
use spot_instance_training_o.Base.{
  ◌≡◌, refl, Bool, false, ◌||◌, ◌&&◌, not, Option, none, some, List, [], ◌∷◌, ℤ, eq_ℤ, any, or_swap,
  or-false, Bool-cases, inl, inr,
}
use spot_instance_training_o.Api.Instance.{ProvisionedInstance}
use spot_instance_training_o.TrainingController.Names.{is_preempted, replica_index}
use spot_instance_training_o.TrainingController.Indices.{is_taken}
use spot_instance_training_o.TrainingController.Indices.Search.{is_taken-take_index}
use spot_instance_training_o.TrainingController.Instances.{take_known, taken_from, taken_indices}

-- The label of the instance tells the index.
abbrev pub has_index : ℤ → Option ℤ → Bool
has_index i none = false
has_index i (some j) = eq_ℤ i j

-- The instance is not preempted and has the index.
abbrev pub holds : ℤ → ProvisionedInstance → Bool
holds i pi = not (is_preempted pi) && has_index i (replica_index pi.meta.labels)

is_taken-take_known :
    (i : ℤ) (o : Option ℤ) (m : List ℤ)
    → is_taken i (take_known o m) ≡ (has_index i o || is_taken i m)
unfolding take_known
is_taken-take_known i none m = refl
is_taken-take_known i (some j) m = is_taken-take_index j i m

is_taken-taken_from :
    (i : ℤ) (items : List ProvisionedInstance) (m : List ℤ)
    → is_taken i (taken_from m items) ≡ (any (holds i) items || is_taken i m)
unfolding taken_from
is_taken-taken_from i [] m = refl
is_taken-taken_from i (pi ∷ items) m = elim (Bool-cases (is_preempted pi)) [
  | inl gone ↦ rw gone (is_taken-taken_from i items m)
  | inr stays ↦
      rw
        (
          stays,
          is_taken-taken_from i items (take_known (replica_index pi.meta.labels) m),
          is_taken-take_known i (replica_index pi.meta.labels) m,
        )
        (or_swap (any (holds i) items) (has_index i (replica_index pi.meta.labels)) (is_taken i m))
]

-- The map that `reconcileProvisionedInstances` makes of the instances it has listed holds exactly the
-- indices that the labels of instances that are not preempted tell, whatever the order of the list.
pub is_taken-taken_indices :
    (i : ℤ) (items : List ProvisionedInstance)
    → is_taken i (taken_indices items) ≡ any (holds i) items
unfolding taken_indices is_taken
is_taken-taken_indices i items = rw (is_taken-taken_from i items []) (or-false _)
