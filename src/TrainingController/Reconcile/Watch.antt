-- ===== src/TrainingController/Reconcile/Watch.antt =====
-- `Reconcile` of a training job that lives: when it is looked at again.
use spot_instance_training_o.Base.{ℕ, ◌+◌, ◌*◌, ◌≤◌, ◌<◌, ◌≡◌, false, String, List, pos, i32_max}
use spot_instance_training_o.Api.Meta.{is_deleting}
use spot_instance_training_o.Api.Training.{SpotInstanceJob}
use spot_instance_training_o.Cluster.Errors.{ok, is_over}
use spot_instance_training_o.Cluster.Events.{Trace}
use spot_instance_training_o.Cluster.Prog.{World, ◌>>=◌}
use spot_instance_training_o.Cluster.Client.{Util}
use spot_instance_training_o.Cluster.Env.{Env}
use spot_instance_training_o.Cluster.Hoare.{Yields, Triple-weaken}
use spot_instance_training_o.TrainingController.Names.{desired_replicas}
use spot_instance_training_o.TrainingController.Instances.Fresh.{Accepting}
use spot_instance_training_o.TrainingController.Jobs.Attempts.{OwnerLaw}
use spot_instance_training_o.TrainingController.Restore.Kept.{GetLaw}
use spot_instance_training_o.TrainingController.Completed.Kept.{RangeLaw}
use spot_instance_training_o.TrainingController.Reconcile.{reconcile}
use spot_instance_training_o.TrainingController.Reconcile.Replicas.{TrainingRules}
use spot_instance_training_o.TrainingController.Reconcile.Kept.{Stays, reconcile_live-GoesOn}
use spot_instance_training_o.TrainingController.Reconcile.Returns.{Sized, Loops-total}

abbrev Anything : Trace → Type 0
Anything t = Unit

Anything-rules : (u : Util) (Q : SpotInstanceJob → Type 0) → TrainingRules u Q Anything
Anything-rules u Q = record {
  instance = λ sj pi a t k o h. tt;
  instance_gone = λ pi a t h. tt;
  training = λ sj a t h. tt;
  status = λ sj a t h. tt;
  job = λ sj j a t k o h. tt;
  job_gone = λ j a t h. tt;
  checkpoint = λ sj cp a t k m h. tt;
  checkpoint_gone = λ cp a t h. tt;
  restore = λ sj name t h. tt;
}

-- That many replicas are asked for.
abbrev pub Wants : ℕ → SpotInstanceJob → Type 0
Wants d sj = desired_replicas sj ≡ pos d

-- A training job that is found and is not being deleted. Of the surroundings: `Get` and both updates
-- answer, where without an error, with a training job that asks for `d` replicas, where 4 * `d` + 2
-- fits an `int32`; setting the owner reference is not refused and keeps name, labels and annotations;
-- every `Create` of an instance is accepted; `Get` of a job answers with the job of the name; ranging
-- over a map gives names of the map; the active instances of each list, and the jobs of each, are as
-- many as an `int32` counts; and the loop that creates instances is given more than `d` rounds. Then,
-- whatever else is answered, `Reconcile` returns, and with an error or a time to look again.
pub reconcile-GoesOn :
    {C S W : Type 0} (env : Env C S W) (range : List String → W → List String × W)
    (namespace name : String) (d : ℕ) (w : World W) (sj : SpotInstanceJob) (s : W)
    → env.client.get_training namespace name w.state ≡ (ok sj, s)
    → is_deleting sj.meta ≡ false
    → Wants d sj
    → Stays env range (Wants d) namespace name
    → Accepting env
    → OwnerLaw env.util
    → GetLaw env.client
    → RangeLaw range
    → Sized env.client
    → 4 * d + 2 ≤ i32_max
    → d < env.patience
    → Yields (reconcile env range namespace name w) (λ out t. is_over out ≡ false)
unfolding reconcile ◌>>=◌
reconcile-GoesOn env range namespace name d w sj s found lives wants stays accepting law gets ranges
      sized small enough =
    let rules = Anything-rules env.util (Wants d) in
    rw (found, lives)
      ((Triple-weaken (λ out t h. h.1)
          (reconcile_live-GoesOn env Anything rules gets law range ranges
            (Loops-total env (Wants d) Anything d rules accepting sized law small enough
              (λ sj' wants'. wants'))
            namespace name stays sj wants)).at
        (record w { state = s }) tt)
