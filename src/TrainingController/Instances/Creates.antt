-- ===== src/TrainingController/Instances/Creates.antt =====
-- What the loop that creates instances has asked for, and how one round adds to it.
use spot_instance_training_o.Base.{
  ℕ, suc, ◌+◌, ◌≤◌, ◌≡◌, refl, ◌⊎◌, inl, inr, false, Option, some, List, [], ◌∷◌, String, ℤ, pos,
  All, length, arith, decimal,
}
use spot_instance_training_o.Api.Meta.{label}
use spot_instance_training_o.Cluster.Events.{Trace, instance_created}
use spot_instance_training_o.TrainingController.Names.{job_replica_label}
use spot_instance_training_o.TrainingController.Indices.{is_taken, take_index}
use spot_instance_training_o.TrainingController.Indices.Search.{Found, free-before_take}

-- The replica labels of the instances that were asked for, the latest first.
abbrev pub created_labels : Trace → List (Option String)
created_labels [] = []
created_labels (instance_created pi answer ∷ t) =
    label job_replica_label pi.meta.labels ∷ created_labels t
created_labels (e ∷ t) = created_labels t

-- The labels of the indices, put before the others one after the other.
abbrev pub with_indices : List ℕ → List (Option String) → List (Option String)
with_indices [] l = l
with_indices (j ∷ js) l = with_indices js (some (decimal j) ∷ l)

-- Each index is greater than the one before, and the first is at least `i`.
abbrev pub Ascends : ℕ → List ℕ → Type 0
Ascends i [] = Unit
Ascends i (j ∷ js) = (i ≤ j) × Ascends (j + 1) js

-- Free in the map, or past the range that the code searches.
abbrev pub IsFree : ℕ → List ℤ → ℕ → Type 0
IsFree limit m j = (is_taken (pos j) m ≡ false) ⊎ (limit ≤ j)

-- What a call has created, from the index `i` on: `k` instances.
pub record Creates (limit : ℕ) (m : List ℤ) (i k : ℕ) (old new : List (Option String))
    : Type 0 where
  pub fresh : List ℕ
  pub number : length fresh ≡ k
  pub ascending : Ascends i fresh
  pub free : All (IsFree limit m) fresh
  pub labels : new ≡ with_indices fresh old

pub Creates-none :
    (limit : ℕ) (m : List ℤ) (i : ℕ) (old : List (Option String)) → Creates limit m i 0 old old
Creates-none limit m i old = record {
  fresh = [];
  number = refl;
  ascending = tt;
  free = tt;
  labels = refl;
}

All-IsFree_before :
    (limit j : ℕ) (m : List ℤ) (js : List ℕ)
    → All (IsFree limit (take_index (pos j) m)) js
    → All (IsFree limit m) js
All-IsFree_before limit j m [] h = tt
All-IsFree_before limit j m (k ∷ js) h = (before h.0, All-IsFree_before limit j m js h.1)
  where
    before : IsFree limit (take_index (pos j) m) k → IsFree limit m k
    before (inl free) = inl (free-before_take (pos j) (pos k) m free)
    before (inr past) = inr past

pub Creates-one :
    (limit : ℕ) (m : List ℤ) (i j k : ℕ) (old new : List (Option String))
    → Found limit m i j
    → Creates limit (take_index (pos j) m) (j + 1) k (some (decimal j) ∷ old) new
    → Creates limit m i (suc k) old new
Creates-one limit m i j k old new f c = record {
  fresh = j ∷ c.fresh;
  number = ground (arith, c.number);
  ascending = (f.from, c.ascending);
  free = (f.free, All-IsFree_before limit j m c.fresh c.free);
  labels = c.labels;
}
