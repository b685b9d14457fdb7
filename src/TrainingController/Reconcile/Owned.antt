-- ===== src/TrainingController/Reconcile/Owned.antt =====
-- `Reconcile` of a training job: to whom belongs what it creates.
use spot_instance_training_o.Base.{
  ◌+◌, ◌*◌, ◌≤◌, ◌<◌, ◌≡◌, ◌∙◌, ap, ℕ, String, some, List, [], ◌∷◌, pos, i32_max,
}
use spot_instance_training_o.Api.Meta.{ObjectMeta, label}
use spot_instance_training_o.Api.Training.{SpotInstanceJob}
use spot_instance_training_o.Cluster.Errors.{ok}
use spot_instance_training_o.Cluster.Events.{
  Trace, instance_created, job_created, checkpoint_created,
}
use spot_instance_training_o.Cluster.Prog.{World}
use spot_instance_training_o.Cluster.Client.{Util}
use spot_instance_training_o.Cluster.Env.{Env}
use spot_instance_training_o.Cluster.Hoare.{Yields}
use spot_instance_training_o.TrainingController.Marks.{IsMarked, IsOwned}
use spot_instance_training_o.TrainingController.Names.{spot_instance_job_label, desired_replicas}
use spot_instance_training_o.TrainingController.Instances.Fresh.{Accepting}
use spot_instance_training_o.TrainingController.Jobs.Attempts.{OwnerLaw}
use spot_instance_training_o.TrainingController.Restore.Kept.{GetLaw}
use spot_instance_training_o.TrainingController.Completed.Kept.{RangeLaw}
use spot_instance_training_o.TrainingController.Reconcile.{reconcile}
use spot_instance_training_o.TrainingController.Reconcile.Replicas.{TrainingRules}
use spot_instance_training_o.TrainingController.Reconcile.Kept.{Stays, reconcile-Keeps}
use spot_instance_training_o.TrainingController.Reconcile.Returns.{Sized, Loops-total}

-- `SetControllerReference` does not move an object.
pub record PlaceLaw (u : Util) : Type 0 where
  pub place :
      (owner m m' : ObjectMeta)
      → u.set_controller_reference owner m ≡ ok m'
      → m'.namespace ≡ m.namespace

-- A training job of the name and the namespace that asks for `d` replicas.
pub record IsThis (namespace name : String) (d : ℕ) (sj : SpotInstanceJob) : Type 0 where
  pub namespace_is : sj.meta.namespace ≡ namespace
  pub name_is : sj.meta.name ≡ name
  pub wants : desired_replicas sj ≡ pos d

-- In the namespace, and with the label that the training job's own objects are listed by.
abbrev pub Belongs : String → String → ObjectMeta → Type 0
Belongs namespace name m =
    (m.namespace ≡ namespace) × (label spot_instance_job_label m.labels ≡ some name)

-- A training job of that name was made its controller.
abbrev pub HasOwner : Util → String → ObjectMeta → Type 0
HasOwner u name m =
    (owner : ObjectMeta) × (before : ObjectMeta) × (owner.name ≡ name)
    × (u.set_controller_reference owner before ≡ ok m)

-- All that was created belongs to the training job.
abbrev pub AllOwned : Util → String → String → Trace → Type 0
AllOwned u namespace name [] = Unit
AllOwned u namespace name (instance_created pi a ∷ t) =
    Belongs namespace name pi.meta × HasOwner u name pi.meta × AllOwned u namespace name t
AllOwned u namespace name (job_created job a ∷ t) =
    Belongs namespace name job.meta × HasOwner u name job.meta × AllOwned u namespace name t
AllOwned u namespace name (checkpoint_created cp a ∷ t) =
    Belongs namespace name cp.meta × AllOwned u namespace name t
AllOwned u namespace name (e ∷ t) = AllOwned u namespace name t

module _ (u : Util) (law : OwnerLaw u) (places : PlaceLaw u) (namespace name : String) (d : ℕ) where
  Belongs-IsMarked :
      (sj : SpotInstanceJob) (m : ObjectMeta)
      → IsThis namespace name d sj
      → IsMarked sj m
      → Belongs namespace name m
  Belongs-IsMarked sj m this marked =
      (marked.place ∙ this.namespace_is, marked.mark ∙ ap some this.name_is)

  Belongs-IsOwned :
      (sj : SpotInstanceJob) (m : ObjectMeta)
      → IsThis namespace name d sj
      → IsOwned u sj m
      → Belongs namespace name m
  Belongs-IsOwned sj m this o =
      let b = Belongs-IsMarked sj o.before this o.marked in
      (
        places.place sj.meta o.before m o.owned ∙ b.0,
        ap (label spot_instance_job_label) (law.labels sj.meta o.before m o.owned) ∙ b.1,
      )

  AllOwned-rules : TrainingRules u (IsThis namespace name d) (AllOwned u namespace name)
  AllOwned-rules = record {
    instance = λ sj pi a t this o h.
        (Belongs-IsOwned sj pi.meta this o, (sj.meta, o.before, this.name_is, o.owned), h);
    instance_gone = λ pi a t h. h;
    training = λ sj a t h. h;
    status = λ sj a t h. h;
    job = λ sj j a t this o h.
        (Belongs-IsOwned sj j.meta this o, (sj.meta, o.before, this.name_is, o.owned), h);
    job_gone = λ j a t h. h;
    checkpoint = λ sj cp a t this m h. (Belongs-IsMarked sj cp.meta this m, h);
    checkpoint_gone = λ cp a t h. h;
    restore = λ sj n t h. h;
  }

-- Of the surroundings: `Get` and both updates answer, where without an error, with the training job of
-- the namespace and the name, which asks for `d` replicas, where 4 * `d` + 2 fits an `int32`; setting
-- the owner reference is not refused and keeps name, namespace, labels and annotations; every `Create`
-- of an instance is accepted; `Get` of a job answers with the job of the name; ranging over a map gives
-- names of the map; the active instances of each list, and the jobs of each, are as many as an `int32`
-- counts; and the loop that creates instances is given more than `d` rounds. Then, whatever else is
-- answered, `Reconcile` of the training job returns. All the instances, jobs and checkpoints that it
-- asks to create are in the namespace and have the label with the training job's name, by which they
-- are listed later, if that holds of those before; and the training job of that name was made the
-- controller of each such instance and job.
pub reconcile-AllOwned :
    {C S W : Type 0} (env : Env C S W) (range : List String → W → List String × W)
    (namespace name : String) (d : ℕ) (w : World W)
    → Stays env range (IsThis namespace name d) namespace name
    → Accepting env
    → OwnerLaw env.util
    → PlaceLaw env.util
    → GetLaw env.client
    → RangeLaw range
    → Sized env.client
    → 4 * d + 2 ≤ i32_max
    → d < env.patience
    → AllOwned env.util namespace name w.trace
    → Yields (reconcile env range namespace name w) (λ _ t. AllOwned env.util namespace name t)
reconcile-AllOwned env range namespace name d w stays accepting law places gets ranges sized small
      enough owned =
    let rules = AllOwned-rules env.util law places namespace name d in
    (reconcile-Keeps env (AllOwned env.util namespace name) rules gets law range ranges
        (Loops-total env (IsThis namespace name d) (AllOwned env.util namespace name) d rules
          accepting sized law small enough (λ sj this. this.wants))
        namespace name stays).at
      w owned
