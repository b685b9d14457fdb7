-- ===== src/System/Overlaps.antt =====
-- The two controllers and the goroutines that restore jobs, running at the same time: their calls in
-- any order, each of them cut off after any of its writes.
use mathlib.Core.Path.{subst, sym}
use spot_instance_training_o.Base.{
  ℕ, ◌≡◌, Bool, true, String, Option, none, some, List, [], ◌∷◌, any, arith, inl, inr,
}
use spot_instance_training_o.Api.Training.{SpotInstanceJob}
use spot_instance_training_o.Cluster.Events.{
  Event, Trace, instance_updated, deletion_ended, instance_status_updated, node_deleted,
}
use spot_instance_training_o.Cluster.Prog.{World, Prog}
use spot_instance_training_o.Cluster.Client.{Util, FinalizerLaws}
use spot_instance_training_o.Cluster.Env.{Env}
use spot_instance_training_o.Cluster.Hoare.{Post, Keeps}
use spot_instance_training_o.InstanceController.Guard.{
  Places, NamespaceLaw, TemplateLaw, place_of, IsGuarded, IsAllowed, releases, accepts,
}
use spot_instance_training_o.InstanceController.Notice.{AllNoticed}
use spot_instance_training_o.InstanceController.Reconcile as InstanceReconcile
use spot_instance_training_o.TrainingController.Jobs.Attempts.{OwnerLaw}
use spot_instance_training_o.TrainingController.Latest.{recreate_job_from_latest_checkpoint}
use spot_instance_training_o.TrainingController.Restore.Kept.{GetLaw}
use spot_instance_training_o.TrainingController.Completed.Kept.{RangeLaw}
use spot_instance_training_o.TrainingController.Reconcile as TrainingReconcile
use spot_instance_training_o.System.{
  IsSafe, instance_step-Keeps, training_step-Keeps, restore_step-Keeps,
}

-- The writes of two traces in some order, each trace's own order kept.
pub data Merges : Trace → Trace → Trace → Type 0 where
  done : Merges [] [] []
  left : {s t u : Trace} (e : Event) → Merges s t u → Merges (e ∷ s) t (e ∷ u)
  right : {s t u : Trace} (e : Event) → Merges s t u → Merges s (e ∷ t) (e ∷ u)

-- The second trace is the first without some of the latest writes.
pub data CutOff (t : Trace) : Trace → Type 0 where
  whole : CutOff t t
  lost : {u : Trace} (e : Event) → CutOff t (e ∷ u) → CutOff t u

-- What one call wrote; nothing is said of a call that uses up its rounds.
abbrev pub ran : {W A : Type 0} → Option (A × World W) → Trace
ran none = []
ran (some (a, w)) = w.trace

abbrev pub fresh : {W : Type 0} → W → World W
fresh state = record { state = state; trace = [] }

-- What any number of calls write that overlap in time. The `i`th meets surroundings of its own, since
-- the others change what it is answered.
pub data Overlaps {C S W : Type 0} (env : ℕ → Env C S W)
    (range : ℕ → List String → W → List String × W) : Trace → Type 0 where
  idle : Overlaps env range []
  instance_reconciled :
      {t part u : Trace} (i : ℕ) (state : W) (namespace name : String)
      → Overlaps env range t
      → CutOff (ran (InstanceReconcile.reconcile (env i) namespace name (fresh state))) part
      → Merges part t u
      → Overlaps env range u
  training_reconciled :
      {t part u : Trace} (i : ℕ) (state : W) (namespace name : String)
      → Overlaps env range t
      → CutOff
          (ran (TrainingReconcile.reconcile (env i) (range i) namespace name (fresh state)))
          part
      → Merges part t u
      → Overlaps env range u
  job_restored :
      {t part u : Trace} (i : ℕ) (state : W) (sj : SpotInstanceJob) (name : String)
      → Overlaps env range t
      → CutOff (ran (recreate_job_from_latest_checkpoint (env i) sj name (fresh state))) part
      → Merges part t u
      → Overlaps env range u

any-Merges-left :
    (p : Event → Bool) {s t u : Trace} → Merges s t u → any p s ≡ true → any p u ≡ true
any-Merges-left p done h = h
any-Merges-left p (left e m) h = ground (arith, any-Merges-left p m)
any-Merges-left p (right e m) h = ground (arith, any-Merges-left p m)

Merges-sym : {s t u : Trace} → Merges s t u → Merges t s u
Merges-sym done = done
Merges-sym (left e m) = right e (Merges-sym m)
Merges-sym (right e m) = left e (Merges-sym m)

-- What has gone before a write has gone before it among more writes.
IsAllowed-Merges :
    (u : Util) (places : Places) (e : Event) {s t r : Trace}
    → Merges s t r
    → IsAllowed u places e s
    → IsAllowed u places e r
IsAllowed-Merges u places (instance_updated pi a) m (inl kept) = inl kept
IsAllowed-Merges u places (instance_updated pi a) m (inr (inl empty)) = inr (inl empty)
IsAllowed-Merges u places (instance_updated pi a) m (inr (inr gone)) =
    inr (inr (any-Merges-left (releases (place_of places pi) pi.status.instance_name) m gone))
IsAllowed-Merges u places (deletion_ended project zone name result) m asked =
    any-Merges-left (accepts (record { project = project; zone = zone }) name) m asked
IsAllowed-Merges u places _ m h = tt

IsGuarded-Merges :
    (u : Util) (places : Places) {s t r : Trace}
    → Merges s t r
    → IsGuarded u places s
    → IsGuarded u places t
    → IsGuarded u places r
IsGuarded-Merges u places done g h = tt
IsGuarded-Merges u places (left e m) g h =
    (IsAllowed-Merges u places e m g.0, IsGuarded-Merges u places m g.1 h)
IsGuarded-Merges u places (right e m) g h =
    (IsAllowed-Merges u places e (Merges-sym m) h.0, IsGuarded-Merges u places m g h.1)

AllNoticed-cons : (e : Event) (s r : Trace) → AllNoticed (e ∷ s) → AllNoticed r → AllNoticed (e ∷ r)
AllNoticed-cons (instance_status_updated pi a) s r h k = (h.0, k)
AllNoticed-cons (node_deleted n a) s r h k = k
AllNoticed-cons _ s r h k = k

AllNoticed-tail : (e : Event) (t : Trace) → AllNoticed (e ∷ t) → AllNoticed t
AllNoticed-tail (instance_status_updated pi a) t h = h.1
AllNoticed-tail (node_deleted n a) t h = h
AllNoticed-tail _ t h = h

AllNoticed-Merges : {s t r : Trace} → Merges s t r → AllNoticed s → AllNoticed t → AllNoticed r
AllNoticed-Merges done g h = tt
AllNoticed-Merges (left {s} {u = r} e m) g h =
    AllNoticed-cons e s r g (AllNoticed-Merges m (AllNoticed-tail e s g) h)
AllNoticed-Merges (right {t} {u = r} e m) g h =
    AllNoticed-cons e t r h (AllNoticed-Merges m g (AllNoticed-tail e t h))

IsSafe-Merges :
    (u : Util) (places : Places) {s t r : Trace}
    → Merges s t r
    → IsSafe u places s
    → IsSafe u places t
    → IsSafe u places r
IsSafe-Merges u places m g h = (IsGuarded-Merges u places m g.0 h.0, AllNoticed-Merges m g.1 h.1)

IsSafe-CutOff :
    (u : Util) (places : Places) {t s : Trace} → CutOff t s → IsSafe u places t → IsSafe u places s
IsSafe-CutOff u places whole h = h
IsSafe-CutOff u places (lost {u = s} e c) h =
    let more = IsSafe-CutOff u places c h in (more.0.1, AllNoticed-tail e s more.1)

-- One call alone.
ran-IsSafe :
    {W A : Type 0} (u : Util) (places : Places) (o : Option (A × World W))
    → Post o (λ _. IsSafe u places)
    → IsSafe u places (ran o)
ran-IsSafe u places none h = (tt, tt)
ran-IsSafe u places (some (a, w)) h = h

module _ {C S W : Type 0} (env : ℕ → Env C S W) (u : Util) (places : Places)
    (shared : (i : ℕ) → (env i).util ≡ u) where
  part-IsSafe :
      {A : Type 0} (i : ℕ) (m : Prog W A) (state : W) {part t r : Trace}
      → Keeps (IsSafe (env i).util places) m
      → CutOff (ran (m (fresh state))) part
      → Merges part t r
      → IsSafe u places t
      → IsSafe u places r
  part-IsSafe i m state keeps cut merge h =
      IsSafe-Merges u places merge
        (IsSafe-CutOff u places cut (
          subst (λ v. IsSafe v places (ran (m (fresh state)))) (shared i)
            (ran-IsSafe (env i).util places _ (keeps.at (fresh state) (tt, tt)))))
        h

-- Each of any number of calls of the two controllers' `Reconcile`s, and of the goroutines that restore
-- jobs, meets surroundings of its own, with the same finalizer functions, which do what they document
-- and keep the namespace; each template that is read names the project and the zone that `places` says,
-- `Get` answers with the job of the name it is asked for, setting the owner reference keeps name,
-- labels and annotations, and ranging over a map gives names of the map. The calls overlap in time:
-- their writes come in any order that keeps each call's own, and each call may be cut off after any of
-- its writes. Then, whatever else is answered, all the writes together are safe: before an object that
-- records a VM loses its finalizer, the deletion of the VM of that name in the project and the zone of
-- the object's template was accepted and the wait for it ended without an error, or the deletion or the
-- wait was answered by an error whose text has `notFound` or `404`; and each status of a
-- ProvisionedInstance with the state STOPPING or TERMINATED has the preemption notice.
pub Overlaps-IsSafe :
    {C S W : Type 0} (env : ℕ → Env C S W) (range : ℕ → List String → W → List String × W)
    (u : Util) (places : Places) {t : Trace}
    → ((i : ℕ) → (env i).util ≡ u)
    → FinalizerLaws u
    → NamespaceLaw u
    → ((i : ℕ) → TemplateLaw (env i).client places)
    → ((i : ℕ) → GetLaw (env i).client)
    → OwnerLaw u
    → ((i : ℕ) → RangeLaw (range i))
    → Overlaps env range t
    → IsSafe u places t
Overlaps-IsSafe env range u places shared finalizers moves templates gets law ranges idle = (tt, tt)
Overlaps-IsSafe env range u places shared finalizers moves templates gets law ranges
      (instance_reconciled i state namespace name o cut merge) =
    part-IsSafe env u places shared i _ state
      (instance_step-Keeps (env i) places (subst FinalizerLaws (sym (shared i)) finalizers)
        (subst NamespaceLaw (sym (shared i)) moves) (templates i) namespace name)
      cut merge
      (Overlaps-IsSafe env range u places shared finalizers moves templates gets law ranges o)
Overlaps-IsSafe env range u places shared finalizers moves templates gets law ranges
      (training_reconciled i state namespace name o cut merge) =
    part-IsSafe env u places shared i _ state
      (training_step-Keeps (env i) places (gets i) (subst OwnerLaw (sym (shared i)) law) (range i)
        (ranges i) namespace name)
      cut merge
      (Overlaps-IsSafe env range u places shared finalizers moves templates gets law ranges o)
Overlaps-IsSafe env range u places shared finalizers moves templates gets law ranges
      (job_restored i state sj name o cut merge) =
    part-IsSafe env u places shared i _ state
      (restore_step-Keeps (env i) places (gets i) (subst OwnerLaw (sym (shared i)) law) sj name) cut
      merge (Overlaps-IsSafe env range u places shared finalizers moves templates gets law ranges o)
