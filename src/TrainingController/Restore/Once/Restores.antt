-- ===== src/TrainingController/Restore/Once/Restores.antt =====
-- The call of `updateJobWithCheckpoint` that restores a job, and the one after it.
use mathlib.Core.Path.{subst, sym}
use spot_instance_training_o.Base.{◌≡◌, refl, ap, ◌∙◌, true, false, String, some, List, ◌∷◌}
use spot_instance_training_o.Api.Meta.{ObjectMeta, has_label, label}
use spot_instance_training_o.Api.Training.{SpotInstanceJob}
use spot_instance_training_o.Api.Instance.{ProvisionedInstance}
use spot_instance_training_o.Api.Kube.{Job}
use spot_instance_training_o.Cluster.Errors.{Result, ok, err}
use spot_instance_training_o.Cluster.Events.{job_created, job_deleted}
use spot_instance_training_o.Cluster.Prog.{World, Prog, pure, ◌>>=◌}
use spot_instance_training_o.Cluster.Env.{Env}
use spot_instance_training_o.TrainingController.Names.{replica_of, is_updated}
use spot_instance_training_o.TrainingController.Restore.{
  Fields, restored_job, index_of, choose_node, create_restored, replace_job,
  update_job_with_checkpoint,
}
use spot_instance_training_o.Base.{decimal_ℤ}
use spot_instance_training_o.TrainingController.Restore.Once.{
  IsOther, IsJobCopy, JobStore, Accepts, images_of, deletes-at, creates-at,
}

module _ {C S W : Type 0} (env : Env C S W) (store : JobStore env) (sj : SpotInstanceJob)
    (name : String) (containers : List Fields) where
  -- A job that is marked stays as it is.
  update_job_with_checkpoint-rests :
      (w : World W) (job : Job)
      → store.stored w.state sj.meta.namespace name ≡ some job
      → is_updated job ≡ true
      → update_job_with_checkpoint env sj name containers w ≡ some (ok tt, w)
  unfolding update_job_with_checkpoint ◌>>=◌
  update_job_with_checkpoint-rests w job stands marked =
      rw (store.finds sj.meta.namespace name w.state job stands, marked) refl

  module _ (w : World W) (job : Job) (node : String) (m' : ObjectMeta)
      (stands : store.stored w.state sj.meta.namespace name ≡ some job)
      (place : job.meta.namespace ≡ sj.meta.namespace) (named : job.meta.name ≡ name)
      (unmarked : is_updated job ≡ false)
      (ready : (s : W)
        → choose_node
            (index_of job)
            (env.client.list_instances sj.meta.namespace
              (replica_of sj (decimal_ℤ (index_of job)))
              s).0
          ≡ ok node)
      (accepts : Accepts env sj
        (restored_job sj name job (images_of sj containers) node).meta
        m') where
    abbrev wanted : Job
    wanted = record (restored_job sj name job (images_of sj containers) node) { meta = m' }

    wanted-place : (wanted.meta.namespace ≡ sj.meta.namespace) × (wanted.meta.name ≡ name)
    unfolding restored_job
    wanted-place = (accepts.namespace, accepts.name_kept)

    wanted-is_updated : (made : Job) → IsJobCopy made wanted → is_updated made ≡ true
    unfolding restored_job has_label label
    wanted-is_updated made copy = rw (copy.annotations, accepts.annotations) refl

    abbrev listing : W → Result (List ProvisionedInstance) × W
    listing = env.client.list_instances sj.meta.namespace (replica_of sj (decimal_ℤ (index_of job)))

    create_restored-creates :
        (s1 s3 : W) (made : Job)
        → env.client.create_job wanted (listing s1).1 ≡ (ok made, s3)
        → create_restored env sj name
            (restored_job sj name job (images_of sj containers) node)
            (record { state = (listing s1).1; trace = job_deleted job (ok tt) ∷ w.trace })
          ≡ some (
            ok tt,
            record {
              state = s3;
              trace = job_created wanted (ok made) ∷ job_deleted job (ok tt) ∷ w.trace;
            },
          )
    unfolding create_restored ◌>>=◌
    create_restored-creates s1 s3 made created = rw (create_restored, accepts.owned, created) refl

    update_job_with_checkpoint-replaces :
        (s1 s3 : W) (made : Job)
        → env.client.delete_job job w.state ≡ (ok tt, s1)
        → env.client.create_job wanted (listing s1).1 ≡ (ok made, s3)
        → update_job_with_checkpoint env sj name containers w
          ≡ some (
            ok tt,
            record {
              state = s3;
              trace = job_created wanted (ok made) ∷ job_deleted job (ok tt) ∷ w.trace;
            },
          )
    unfolding update_job_with_checkpoint replace_job ◌>>=◌
    update_job_with_checkpoint-replaces s1 s3 made deleted created =
        rw (store.finds sj.meta.namespace name w.state job stands, unmarked, deleted)
          (subst
            (λ c.
              elim c as (λ _. Prog W (Result (Unit {0}))) [
                | err e ↦ pure (err e)
                | ok n ↦
                    create_restored env sj name
                      (restored_job sj name job (images_of sj containers) n)
              ]
                (record { state = (listing s1).1; trace = job_deleted job (ok tt) ∷ w.trace })
              ≡ some (
                ok tt,
                record {
                  state = s3;
                  trace = job_created wanted (ok made) ∷ job_deleted job (ok tt) ∷ w.trace;
                },
              ))
            (sym (ready s1)) (create_restored-creates s1 s3 made created))

    update_job_with_checkpoint-runs :
        (made : Job) × (w' : World W) × (update_job_with_checkpoint env sj name containers w
          ≡ some (ok tt, w'))
        × (store.stored w'.state sj.meta.namespace name ≡ some made)
        × IsJobCopy made wanted
        × ((namespace name' : String)
            → IsOther sj.meta.namespace name namespace name'
            → store.stored w'.state namespace name' ≡ store.stored w.state namespace name')
    update_job_with_checkpoint-runs =
        let (s1, deleted, gone, others) =
          deletes-at env store sj.meta.namespace name w.state job place named in
        let kept : store.stored (listing s1).1 ≡ store.stored s1 =
          store.only_reads sj.meta.namespace (replica_of sj (decimal_ℤ (index_of job))) s1 in
        let (made, s3, created, stands', copy, rest) =
          creates-at env store sj.meta.namespace name (listing s1).1 wanted wanted-place.0
            wanted-place.1 (rw kept gone) in
        (
          made,
          record {
            state = s3;
            trace = job_created wanted (ok made) ∷ job_deleted job (ok tt) ∷ w.trace;
          },
          update_job_with_checkpoint-replaces s1 s3 made deleted created,
          stands',
          copy,
          λ namespace' name' other.
              rest namespace' name' other
              ∙ (ap (λ f. f namespace' name') kept ∙ others namespace' name' other),
        )

    restores-and_rests :
        (made : Job) × (w' : World W) × (update_job_with_checkpoint env sj name containers w
          ≡ some (ok tt, w'))
        × (store.stored w'.state sj.meta.namespace name ≡ some made)
        × IsJobCopy made (restored_job sj name job (images_of sj containers) node)
        × ((namespace name' : String)
            → IsOther sj.meta.namespace name namespace name'
            → store.stored w'.state namespace name' ≡ store.stored w.state namespace name')
        × (update_job_with_checkpoint env sj name containers w' ≡ some (ok tt, w'))
    restores-and_rests =
        let (made, w', returns, stands', copy, rest) = update_job_with_checkpoint-runs in
        (
          made,
          w',
          returns,
          stands',
          record {
            namespace = copy.namespace ∙ accepts.namespace;
            name = copy.name ∙ accepts.name_kept;
            labels = copy.labels ∙ accepts.labels;
            annotations = copy.annotations ∙ accepts.annotations;
            spec = copy.spec;
          },
          rest,
          update_job_with_checkpoint-rests w' made stands' (wanted-is_updated made copy),
        )

-- Over an API server that keeps the jobs (`JobStore`), where it keeps an unmarked job under the name, an
-- instance of its replica is ready and the owner reference is accepted, `updateJobWithCheckpoint` returns
-- without an error; the server then keeps under that name the job with the checkpoint's images, the mark
-- and that instance's node, and every other job as before; and a second call returns without an error
-- and changes nothing.
pub update_job_with_checkpoint-Restores :
    {C S W : Type 0} (env : Env C S W) (store : JobStore env) (sj : SpotInstanceJob) (name : String)
    (containers : List Fields) (w : World W) (job : Job) (node : String) (m' : ObjectMeta)
    → store.stored w.state sj.meta.namespace name ≡ some job
    → job.meta.namespace ≡ sj.meta.namespace
    → job.meta.name ≡ name
    → is_updated job ≡ false
    → ((s : W)
        → choose_node
            (index_of job)
            (env.client.list_instances sj.meta.namespace
              (replica_of sj (decimal_ℤ (index_of job)))
              s).0
          ≡ ok node)
    → Accepts env sj (restored_job sj name job (images_of sj containers) node).meta m'
    → (made : Job) × (w' : World W) × (update_job_with_checkpoint env sj name containers w
        ≡ some (ok tt, w'))
      × (store.stored w'.state sj.meta.namespace name ≡ some made)
      × IsJobCopy made (restored_job sj name job (images_of sj containers) node)
      × ((namespace name' : String)
          → IsOther sj.meta.namespace name namespace name'
          → store.stored w'.state namespace name' ≡ store.stored w.state namespace name')
      × (update_job_with_checkpoint env sj name containers w' ≡ some (ok tt, w'))
update_job_with_checkpoint-Restores env store sj name containers w job node m' stands place named
      unmarked ready accepts =
    restores-and_rests env store sj name containers w job node m' stands place named unmarked ready
      accepts
