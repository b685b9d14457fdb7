-- ===== src/TrainingController/Latest/Restored.antt =====
-- `recreateJobFromLatestCheckpoint` over an API server that keeps the jobs.
use spot_instance_training_o.Base.{
  ◌≡◌, refl, false, String, Option, none, some, List, [], ◌∷◌, All, Exists, inl, inr, decimal_ℤ,
}
use spot_instance_training_o.Api.Meta.{ObjectMeta}
use spot_instance_training_o.Api.Training.{SpotInstanceJob}
use spot_instance_training_o.Api.Kube.{Job, Checkpoint}
use spot_instance_training_o.Cluster.Errors.{ok}
use spot_instance_training_o.Cluster.Prog.{World, ◌>>=◌}
use spot_instance_training_o.Cluster.Client.{Util}
use spot_instance_training_o.Cluster.Env.{Env}
use spot_instance_training_o.TrainingController.Names.{replica_of, is_updated, owned_by}
use spot_instance_training_o.TrainingController.Restore.{
  restored_job, index_of, choose_node, update_job_with_checkpoint,
}
use spot_instance_training_o.TrainingController.Restore.Once.{
  IsOther, IsJobCopy, JobStore, Accepts, images_of,
}
use spot_instance_training_o.TrainingController.Restore.Once.Restores.{
  update_job_with_checkpoint-Restores,
}
use spot_instance_training_o.TrainingController.Latest.{
  Candidate, candidate, latest, restore_latest, recreate_job_from_latest_checkpoint,
}
use spot_instance_training_o.TrainingController.Latest.Newest.{IsNewest, latest-IsNewest}

offered_not_none :
    (u : Util) (cps : List Checkpoint) (r : Candidate)
    → All (λ cp. candidate u cp ≡ none) cps
    → Exists (λ cp. candidate u cp ≡ some r) cps
    → ⊥
offered_not_none u [] r h there = there
offered_not_none u (cp ∷ cps) r h (inl here) = absurd (cc (h.0, here))
offered_not_none u (cp ∷ cps) r h (inr there) = offered_not_none u cps r h.1 there

IsNewest-of_some :
    (u : Util) (cps : List Checkpoint) (r : Candidate) (res : Option Candidate)
    → Exists (λ cp. candidate u cp ≡ some r) cps
    → IsNewest u cps res
    → (best : Candidate) × (res ≡ some best) × IsNewest u cps (some best)
IsNewest-of_some u cps r none offered h = absurd (offered_not_none u cps r h offered)
IsNewest-of_some u cps r (some best) offered h = (best, refl, h)

module _ {C S W : Type 0} (env : Env C S W) (store : JobStore env) (sj : SpotInstanceJob)
    (name : String) (cps : List Checkpoint) (best : Candidate)
    (lists : (s : W) → env.client.list_checkpoints sj.meta.namespace (owned_by sj) s ≡ (ok cps, s))
    (newest : latest env.util cps none ≡ some best) where
  -- The goroutine does what the update with the containers of the newest checkpoint does.
  recreate-updates :
      (w w' : World W) (job : Job)
      → store.stored w.state sj.meta.namespace name ≡ some job
      → update_job_with_checkpoint env sj name best.1 w ≡ some (ok tt, w')
      → recreate_job_from_latest_checkpoint env sj name w ≡ some (tt, w')
  unfolding recreate_job_from_latest_checkpoint restore_latest ◌>>=◌ update_job_with_checkpoint
  recreate-updates w w' job stands updates =
      rw (lists w.state, newest, store.finds sj.meta.namespace name w.state job stands, updates)
        refl

-- Over an API server that keeps the jobs (`JobStore`) and always lists the checkpoints `cps`, of which one
-- at least is completed with containers and a time that can be parsed, where the server keeps an unmarked
-- job under the name, an instance of its replica is ready and the owner reference is accepted:
-- `recreateJobFromLatestCheckpoint` returns; the server then keeps under that name the job with the images
-- of such a checkpoint that none of the listed ones was completed after, and every other job as before;
-- and a second call returns and changes nothing.
pub recreate_job_from_latest_checkpoint-Restores :
    {C S W : Type 0} (env : Env C S W) (store : JobStore env) (sj : SpotInstanceJob) (name : String)
    (cps : List Checkpoint) (r : Candidate) (w : World W) (job : Job) (node : String)
    (m' : ObjectMeta)
    → ((s : W) → env.client.list_checkpoints sj.meta.namespace (owned_by sj) s ≡ (ok cps, s))
    → Exists (λ cp. candidate env.util cp ≡ some r) cps
    → store.stored w.state sj.meta.namespace name ≡ some job
    → job.meta.namespace ≡ sj.meta.namespace
    → job.meta.name ≡ name
    → is_updated job ≡ false
    → ((s : W)
        → choose_node
            (index_of job)
            (env.client.list_instances sj.meta.namespace
              (replica_of sj (decimal_ℤ (index_of job)))
              s).0
          ≡ ok node)
    → Accepts env sj (restored_job sj name job [] node).meta m'
    → (best : Candidate) × (made : Job) × (w' : World W) × IsNewest env.util cps (some best)
      × (recreate_job_from_latest_checkpoint env sj name w ≡ some (tt, w'))
      × (store.stored w'.state sj.meta.namespace name ≡ some made)
      × IsJobCopy made (restored_job sj name job (images_of sj best.1) node)
      × ((namespace name' : String)
          → IsOther sj.meta.namespace name namespace name'
          → store.stored w'.state namespace name' ≡ store.stored w.state namespace name')
      × (recreate_job_from_latest_checkpoint env sj name w' ≡ some (tt, w'))
unfolding restored_job
recreate_job_from_latest_checkpoint-Restores env store sj name cps r w job node m' lists offered
      stands place named unmarked ready accepts =
    let (best, newest, is_newest) =
      IsNewest-of_some env.util cps r (latest env.util cps none) offered
        (latest-IsNewest env.util cps) in
    let same : Accepts env sj (restored_job sj name job (images_of sj best.1) node).meta m' =
      record {
        owned = accepts.owned;
        namespace = accepts.namespace;
        name_kept = accepts.name_kept;
        labels = accepts.labels;
        annotations = accepts.annotations;
      } in
    let (made, w', updates, stands', copy, rest, again) =
      update_job_with_checkpoint-Restores env store sj name best.1 w job node m' stands place named
        unmarked ready same in
    (
      best,
      made,
      w',
      is_newest,
      recreate-updates env store sj name cps best lists newest w w' job stands updates,
      stands',
      copy,
      rest,
      recreate-updates env store sj name cps best lists newest w' w' made stands' again,
    )
