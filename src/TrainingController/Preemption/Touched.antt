-- ===== src/TrainingController/Preemption/Touched.antt =====
-- `handlePreemption`: the jobs that it touches, and how many checkpoints it asks for.
use spot_instance_training_o.Base.{
  ◌+◌, ℕ, ◌≤◌, ◌≡◌, refl, Bool, true, false, String, List, [], ◌∷◌, All, count, arith, ◌++◌,
}
use spot_instance_training_o.Api.Instance.{ProvisionedInstance}
use spot_instance_training_o.Api.Training.{SpotInstanceJob}
use spot_instance_training_o.Cluster.Errors.{Result, ok, err}
use spot_instance_training_o.Cluster.Events.{
  Event, Trace, job_created, job_deleted, checkpoint_created, restore_started,
}
use spot_instance_training_o.Cluster.Prog.{World}
use spot_instance_training_o.Cluster.Env.{Env}
use spot_instance_training_o.Cluster.Client.{Util}
use spot_instance_training_o.Cluster.Hoare.{
  Yields, Delivers, Ensures-pure, Ensures-bind, Ensures-ask_of, Triple-of, Triple-before,
}
use spot_instance_training_o.TrainingController.Names.{owned_by, is_preempted}
use spot_instance_training_o.TrainingController.Jobs.Attempts.{OwnerLaw}
use spot_instance_training_o.TrainingController.Restore.Kept.{GetLaw, JobRules}
use spot_instance_training_o.TrainingController.Completed.Kept.{RangeLaw}
use spot_instance_training_o.TrainingController.Preemption.{handle_listed, handle_preemption}
use spot_instance_training_o.TrainingController.Preemption.Chosen.{Covers}
use spot_instance_training_o.TrainingController.Preemption.Kept.{WriteRules, handle_each-Asks}

-- The writes that handling preemption may make, about jobs whose names pass the test.
abbrev pub IsAllowed : (String → Bool) → Event → Type 0
IsAllowed φ (job_deleted job a) = φ job.meta.name ≡ true
IsAllowed φ (job_created job a) = φ job.meta.name ≡ true
IsAllowed φ (restore_started sj name) = φ name ≡ true
IsAllowed φ (checkpoint_created cp a) = Unit
IsAllowed φ _ = ⊥

abbrev is_checkpoint : Event → Bool
is_checkpoint (checkpoint_created cp a) = true
is_checkpoint _ = false

-- Allowed writes only, at most `k` of them checkpoints, put before older ones.
pub record Handled (φ : String → Bool) (old : Trace) (k : ℕ) (t : Trace) : Type 0 where
  pub new : Trace
  pub split : t ≡ new ++ old
  pub allowed : All (IsAllowed φ) new
  pub few : count is_checkpoint new ≤ k

Handled-job_rules :
    (u : Util) (sj : SpotInstanceJob) (φ : String → Bool) (old : Trace) (k : ℕ)
    → JobRules u sj φ (Handled φ old k)
Handled-job_rules u sj φ old k = record {
  deleted = λ job a t h p. record {
    new = job_deleted job a ∷ p.new;
    split = rw (p.split) refl;
    allowed = (h, p.allowed);
    few = p.few;
  };
  created = λ job a t h o p. record {
    new = job_created job a ∷ p.new;
    split = rw (p.split) refl;
    allowed = (h, p.allowed);
    few = p.few;
  };
}

Handled-rules :
    (u : Util) (sj : SpotInstanceJob) (φ : String → Bool) (old : Trace)
    → WriteRules u sj φ (Handled φ old)
Handled-rules u sj φ old = record {
  jobs = Handled-job_rules u sj φ old;
  checkpoints = record {
    asked = λ k cp a t m p. record {
      new = checkpoint_created cp a ∷ p.new;
      split = rw (p.split) refl;
      allowed = (tt, p.allowed);
      few = omega (arith, p.few);
    };
    more = λ k t p. record {
      new = p.new;
      split = p.split;
      allowed = p.allowed;
      few = omega (arith, p.few);
    };
  };
  restores = λ k name t h p. record {
    new = restore_started sj name ∷ p.new;
    split = rw (p.split) refl;
    allowed = (h, p.allowed);
    few = p.few;
  };
}

-- What the whole call does, by what the list of the instances answers.
abbrev pub HandledBy :
    (String → Bool) → Trace → Result (List ProvisionedInstance) → Result (Unit {0}) → Trace → Type 0
HandledBy φ old (err e) r t = (r ≡ err e) × (t ≡ old)
HandledBy φ old (ok items) r t = (r ≡ ok tt) × Handled φ old (count is_preempted items) t

-- The test passes the jobs of each preempted instance that is listed.
abbrev pub CoversListed :
    {C S W : Type 0}
    → Env C S W
    → SpotInstanceJob
    → (String → Bool)
    → Result (List ProvisionedInstance)
    → Type 0
CoversListed env sj φ (err e) = Unit
CoversListed env sj φ (ok items) = All (λ pi. is_preempted pi ≡ true → Covers env sj φ pi) items

from_zero : (n : ℕ) → 0 + n ≡ n
from_zero n = omega arith

module _ {C S W : Type 0} (env : Env C S W) (range : List String → W → List String × W)
    (sj : SpotInstanceJob) (φ : String → Bool) (old : Trace) where
  handle_listed-Delivers :
      (listed : Result (List ProvisionedInstance))
      → RangeLaw range
      → GetLaw env.client
      → OwnerLaw env.util
      → CoversListed env sj φ listed
      → Delivers (λ t. t ≡ old) (handle_listed env range sj listed) (HandledBy φ old listed)
  unfolding handle_listed
  handle_listed-Delivers (err e) ranges gets law covers = Ensures-pure _ (λ t p. (refl, p))
  handle_listed-Delivers (ok items) ranges gets law covers =
      Ensures-bind
        (Triple-before (λ t p. record { new = []; split = p; allowed = tt; few = omega arith })
          (handle_each-Asks env range sj ranges φ gets law (Handled φ old)
            (Handled-rules env.util sj φ old) 0 items items [] covers (λ n h. absurd (cc h))))
        (λ _. Ensures-pure _ (λ t p. (refl, rw (← from_zero (count is_preempted items)) p)))

  handle_preemption-Delivers :
      (listed : Result (List ProvisionedInstance))
      → ((s : W) → (env.client.list_instances sj.meta.namespace (owned_by sj) s).0 ≡ listed)
      → RangeLaw range
      → GetLaw env.client
      → OwnerLaw env.util
      → CoversListed env sj φ listed
      → Delivers (λ t. t ≡ old) (handle_preemption env range sj) (HandledBy φ old listed)
  unfolding handle_preemption
  handle_preemption-Delivers listed answers ranges gets law covers =
      Ensures-bind {Q = λ a t. (a ≡ listed) × (t ≡ old)}
        (Ensures-ask_of (λ a. a ≡ listed) _ answers (λ a t same p. (same, p)))
        λ a.
          Triple-of (λ t h. h.0)
            (λ same.
              rw same
                (Triple-before (λ t h. h.1) (handle_listed-Delivers listed ranges gets law covers)))

-- Where the `List` of the instances keeps to its answer, `Get` answers with the job of the name it is
-- asked for, setting the owner reference keeps name, labels and annotations, ranging over a map gives
-- names of the map, and a test `φ` passes, for each preempted instance of the list, the names of the
-- jobs that are ever listed for its replica index and are neither being deleted nor marked by an
-- update, and of the jobs of the pods that are ever listed on its node: then, whatever else is
-- answered, `handlePreemption` returns. It returns the error of the list and writes nothing; or it
-- returns no error, all that it writes is the creation of checkpoints, the deletion and creation of
-- jobs whose names pass the test, and the start of goroutines that restore such jobs, and it asks for
-- at most as many checkpoints as the list has preempted instances.
pub handle_preemption-Touches :
    {C S W : Type 0} (env : Env C S W) (range : List String → W → List String × W)
    (sj : SpotInstanceJob) (φ : String → Bool) (listed : Result (List ProvisionedInstance))
    (w : World W)
    → ((s : W) → (env.client.list_instances sj.meta.namespace (owned_by sj) s).0 ≡ listed)
    → RangeLaw range
    → GetLaw env.client
    → OwnerLaw env.util
    → CoversListed env sj φ listed
    → Yields (handle_preemption env range sj w) (HandledBy φ w.trace listed)
handle_preemption-Touches env range sj φ listed w answers ranges gets law covers =
    (handle_preemption-Delivers env range sj φ w.trace listed answers ranges gets law covers).at w
      refl
