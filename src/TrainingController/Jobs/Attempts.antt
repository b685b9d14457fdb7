-- ===== src/TrainingController/Jobs/Attempts.antt =====
-- What the loop that creates jobs has asked for, and how one round adds to it.
use spot_instance_training_o.Base.{
  ℕ, suc, ◌+◌, ◌≤◌, ◌<◌, ◌≡◌, false, Option, some, List, [], ◌∷◌, ℤ, pos, All, arith, decimal,
  String,
}
use spot_instance_training_o.Api.Meta.{ObjectMeta, label}
use spot_instance_training_o.Cluster.Errors.{ok}
use spot_instance_training_o.Cluster.Events.{Event, Trace, job_created}
use spot_instance_training_o.Cluster.Client.{Util}
use spot_instance_training_o.TrainingController.Names.{job_replica_label}
use spot_instance_training_o.TrainingController.Indices.{is_taken, take_index}
use spot_instance_training_o.TrainingController.Indices.Search.{free-before_take}
use spot_instance_training_o.TrainingController.Instances.Creates.{with_indices, Ascends}

-- `SetControllerReference` writes the owner references and nothing else.
pub record OwnerLaw (u : Util) : Type 0 where
  pub labels :
      (owner m m' : ObjectMeta) → u.set_controller_reference owner m ≡ ok m' → m'.labels ≡ m.labels
  pub name :
      (owner m m' : ObjectMeta) → u.set_controller_reference owner m ≡ ok m' → m'.name ≡ m.name
  pub annotations :
      (owner m m' : ObjectMeta)
      → u.set_controller_reference owner m ≡ ok m'
      → m'.annotations ≡ m.annotations

-- The replica labels of the jobs that were asked for, the latest first.
abbrev pub job_labels : Trace → List (Option String)
job_labels [] = []
job_labels (job_created job answer ∷ t) = label job_replica_label job.meta.labels ∷ job_labels t
job_labels (e ∷ t) = job_labels t

abbrev pub is_accepted_job : Event → ℕ
is_accepted_job (job_created job (ok made)) = 1
is_accepted_job _ = 0

-- How many jobs were created.
abbrev pub jobs_made : Trace → ℕ
jobs_made [] = 0
jobs_made (e ∷ t) = is_accepted_job e + jobs_made t

-- What the loop has asked for from the index `i` on.
pub record Attempts (limit : ℕ) (m : List ℤ) (i most : ℕ) (old : List (Option String)) (made : ℕ)
    (t : Trace) : Type 0 where
  pub replicas : List ℕ
  pub ascending : Ascends i replicas
  pub free : All (λ j. (j < limit) × (is_taken (pos j) m ≡ false)) replicas
  pub labels : job_labels t ≡ with_indices replicas old
  pub made_few : jobs_made t ≤ made + most

Ascends-from : (i j : ℕ) (js : List ℕ) → i ≤ j → Ascends j js → Ascends i js
Ascends-from i j [] h a = tt
Ascends-from i j (k ∷ js) h a = (omega (arith, a.0), a.1)

All-free_before :
    (limit : ℕ) (i : ℤ) (m : List ℤ) (js : List ℕ)
    → All (λ j. (j < limit) × (is_taken (pos j) (take_index i m) ≡ false)) js
    → All (λ j. (j < limit) × (is_taken (pos j) m ≡ false)) js
All-free_before limit i m [] h = tt
All-free_before limit i m (j ∷ js) h =
    ((h.0.0, free-before_take i (pos j) m h.0.1), All-free_before limit i m js h.1)

module _ (limit : ℕ) (m : List ℤ) (i j most : ℕ) (old : List (Option String)) (made : ℕ) (t : Trace)
    (from : i ≤ j) where
  -- The index is passed over.
  pub Attempts-skip : Attempts limit m (j + 1) most old made t → Attempts limit m i most old made t
  Attempts-skip a = record {
    replicas = a.replicas;
    ascending = Ascends-from i (j + 1) a.replicas (omega arith) a.ascending;
    free = a.free;
    labels = a.labels;
    made_few = a.made_few;
  }

  -- So it is where the map gains it.
  pub Attempts-skip_taken :
      Attempts limit (take_index (pos j) m) (j + 1) most old made t
      → Attempts limit m i most old made t
  Attempts-skip_taken a = record {
    replicas = a.replicas;
    ascending = Ascends-from i (j + 1) a.replicas (omega arith) a.ascending;
    free = All-free_before limit (pos j) m a.replicas a.free;
    labels = a.labels;
    made_few = a.made_few;
  }

  -- A job is asked for and refused.
  pub Attempts-refused :
      j < limit
      → is_taken (pos j) m ≡ false
      → Attempts limit m (j + 1) most (some (decimal j) ∷ old) made t
      → Attempts limit m i most old made t
  Attempts-refused below is_free a = record {
    replicas = j ∷ a.replicas;
    ascending = (from, a.ascending);
    free = ((below, is_free), a.free);
    labels = a.labels;
    made_few = a.made_few;
  }

  -- A job is asked for and created.
  pub Attempts-made :
      j < limit
      → is_taken (pos j) m ≡ false
      → Attempts limit (take_index (pos j) m) (j + 1) most (some (decimal j) ∷ old) (made + 1) t
      → Attempts limit m i (suc most) old made t
  Attempts-made below is_free a = record {
    replicas = j ∷ a.replicas;
    ascending = (from, a.ascending);
    free = ((below, is_free), All-free_before limit (pos j) m a.replicas a.free);
    labels = a.labels;
    made_few = omega (arith, a.made_few);
  }

pub Attempts-none :
    (limit : ℕ) (m : List ℤ) (i most : ℕ) (old : List (Option String)) (made : ℕ) (t : Trace)
    → job_labels t ≡ old
    → jobs_made t ≡ made
    → Attempts limit m i most old made t
Attempts-none limit m i most old made t h k = record {
  replicas = [];
  ascending = tt;
  free = tt;
  labels = h;
  made_few = omega (arith, k);
}
