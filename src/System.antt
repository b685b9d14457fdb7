-- ===== src/System.antt =====
-- The two controllers over one cluster: the `Reconcile` of each and the goroutines that restore jobs,
-- in any order, each run to its end before the next, with any change by others in between.
pub mod Overlaps
use spot_instance_training_o.Base.{◌≡◌, String, some, List}
use spot_instance_training_o.Api.Training.{SpotInstanceJob}
use spot_instance_training_o.Cluster.Errors.{Outcome}
use spot_instance_training_o.Cluster.Events.{Trace}
use spot_instance_training_o.Cluster.Prog.{World}
use spot_instance_training_o.Cluster.Client.{Util, FinalizerLaws}
use spot_instance_training_o.Cluster.Env.{Env}
use spot_instance_training_o.Cluster.Hoare.{Keeps, Triple-both, Keeps-run}
use spot_instance_training_o.Gcp.Waiting.{Waits-partial}
use spot_instance_training_o.InstanceController.Guard.{Places, NamespaceLaw, TemplateLaw, IsGuarded}
use spot_instance_training_o.InstanceController.Guard.Kept as InstanceGuard
use spot_instance_training_o.InstanceController.Notice as InstanceNotice
use spot_instance_training_o.InstanceController.Notice.{AllNoticed}
use spot_instance_training_o.InstanceController.Reconcile as InstanceReconcile
use spot_instance_training_o.TrainingController.Jobs.Attempts.{OwnerLaw}
use spot_instance_training_o.TrainingController.Latest.{recreate_job_from_latest_checkpoint}
use spot_instance_training_o.TrainingController.Restore.Kept.{GetLaw}
use spot_instance_training_o.TrainingController.Completed.Kept.{RangeLaw}
use spot_instance_training_o.TrainingController.Reconcile as TrainingReconcile
use spot_instance_training_o.TrainingController.Reconcile.Replicas.{TrainingRules}
use spot_instance_training_o.TrainingController.Reconcile.Preempted.{
  recreate_job_from_latest_checkpoint-Keeps,
}
use spot_instance_training_o.TrainingController.Reconcile.Kept.{Loops-partial}
use spot_instance_training_o.TrainingController.Reconcile.Kept as TrainingKept

-- The worlds that the controllers reach from the first one.
pub data Reaches {C S W : Type 0} (env : Env C S W) (range : List String → W → List String × W)
    (first : World W) : World W → Type 0 where
  here : Reaches env range first first
  changed :
      {w : World W} (state : W)
      → Reaches env range first w
      → Reaches env range first (record w { state = state })
  instance_reconciled :
      {w w' : World W} (namespace name : String) (out : Outcome)
      → Reaches env range first w
      → InstanceReconcile.reconcile env namespace name w ≡ some (out, w')
      → Reaches env range first w'
  training_reconciled :
      {w w' : World W} (namespace name : String) (out : Outcome)
      → Reaches env range first w
      → TrainingReconcile.reconcile env range namespace name w ≡ some (out, w')
      → Reaches env range first w'
  job_restored :
      {w w' : World W} (sj : SpotInstanceJob) (name : String)
      → Reaches env range first w
      → recreate_job_from_latest_checkpoint env sj name w ≡ some (tt, w')
      → Reaches env range first w'

-- What the writes so far must meet.
abbrev pub IsSafe : Util → Places → Trace → Type 0
IsSafe u places t = IsGuarded u places t × AllNoticed t

-- The training controller never writes what either is about.
pub IsSafe-TrainingRules :
    (u : Util) (places : Places) → TrainingRules u (λ sj. Unit {0}) (IsSafe u places)
IsSafe-TrainingRules u places = record {
  instance = λ sj pi a t k o h. ((tt, h.0), h.1);
  instance_gone = λ pi a t h. ((tt, h.0), h.1);
  training = λ sj a t h. ((tt, h.0), h.1);
  status = λ sj a t h. ((tt, h.0), h.1);
  job = λ sj j a t k o h. ((tt, h.0), h.1);
  job_gone = λ j a t h. ((tt, h.0), h.1);
  checkpoint = λ sj cp a t k m h. ((tt, h.0), h.1);
  checkpoint_gone = λ cp a t h. ((tt, h.0), h.1);
  restore = λ sj name t h. ((tt, h.0), h.1);
}

module _ {C S W : Type 0} (env : Env C S W) (places : Places) (finalizers : FinalizerLaws env.util)
    (moves : NamespaceLaw env.util) (templates : TemplateLaw env.client places) where
  pub instance_step-Keeps :
      (namespace name : String)
      → Keeps (IsSafe env.util places) (InstanceReconcile.reconcile env namespace name)
  instance_step-Keeps namespace name =
      let waits = Waits-partial env.cloud env.patience in
      Triple-both
        (InstanceGuard.reconcile-Keeps env places moves templates waits finalizers namespace name)
        (InstanceNotice.reconcile-Keeps env waits namespace name)

module _ {C S W : Type 0} (env : Env C S W) (places : Places) (gets : GetLaw env.client)
    (law : OwnerLaw env.util) where
  pub training_step-Keeps :
      (range : List String → W → List String × W)
      → RangeLaw range
      → (namespace name : String)
      → Keeps (IsSafe env.util places) (TrainingReconcile.reconcile env range namespace name)
  training_step-Keeps range ranges namespace name =
      TrainingKept.reconcile-Keeps env (IsSafe env.util places)
        (IsSafe-TrainingRules env.util places) gets law range ranges
        (Loops-partial env (λ sj. Unit {0}) (IsSafe env.util places)
          (IsSafe-TrainingRules env.util places))
        namespace name
        (record {
          got = λ s sj e. tt;
          updated = λ sj s k sj' e. tt;
          status_updated = λ sj s k sj' e. tt;
        })

  pub restore_step-Keeps :
      (sj : SpotInstanceJob) (name : String)
      → Keeps (IsSafe env.util places) (recreate_job_from_latest_checkpoint env sj name)
  restore_step-Keeps sj name =
      recreate_job_from_latest_checkpoint-Keeps env (IsSafe env.util places)
        (IsSafe-TrainingRules env.util places) gets law sj tt name

-- If the finalizer functions do what they document and keep the namespace, each template that is read
-- names the project and the zone that `places` says, `Get` answers with the job of the name it is asked
-- for, setting the owner reference keeps name, labels and annotations, and ranging over a map gives
-- names of the map: then, from a world whose writes are safe, the two controllers reach only worlds
-- whose writes are safe, in whatever order their `Reconcile`s and the goroutines that restore jobs run
-- to their ends, whatever else the calls answer and whatever others change in between. Safe is that
-- before an object that records a VM loses its finalizer, the deletion of the VM of that name in the
-- project and the zone of the object's template was accepted and the wait for it ended without an
-- error, or the deletion or the wait was answered by an error whose text has `notFound` or `404`; and
-- that each status of a ProvisionedInstance with the state STOPPING or TERMINATED has the preemption
-- notice.
pub Reaches-IsSafe :
    {C S W : Type 0} (env : Env C S W) (range : List String → W → List String × W) (places : Places)
    {first w : World W}
    → FinalizerLaws env.util
    → NamespaceLaw env.util
    → TemplateLaw env.client places
    → GetLaw env.client
    → OwnerLaw env.util
    → RangeLaw range
    → IsSafe env.util places first.trace
    → Reaches env range first w
    → IsSafe env.util places w.trace
Reaches-IsSafe env range places finalizers moves templates gets law ranges safe here = safe
Reaches-IsSafe env range places finalizers moves templates gets law ranges safe (changed state r) =
    Reaches-IsSafe env range places finalizers moves templates gets law ranges safe r
Reaches-IsSafe env range places finalizers moves templates gets law ranges safe
      (instance_reconciled namespace name out r run) =
    Keeps-run (instance_step-Keeps env places finalizers moves templates namespace name) run
      (Reaches-IsSafe env range places finalizers moves templates gets law ranges safe r)
Reaches-IsSafe env range places finalizers moves templates gets law ranges safe
      (training_reconciled namespace name out r run) =
    Keeps-run (training_step-Keeps env places gets law range ranges namespace name) run
      (Reaches-IsSafe env range places finalizers moves templates gets law ranges safe r)
Reaches-IsSafe env range places finalizers moves templates gets law ranges safe
      (job_restored sj name r run) =
    Keeps-run (restore_step-Keeps env places gets law sj name) run
      (Reaches-IsSafe env range places finalizers moves templates gets law ranges safe r)
