-- ===== src/TrainingController/Restore/Lost.antt =====
-- `updateJobWithCheckpoint` where no instance of the replica is ready.
use spot_instance_training_o.Base.{◌≡◌, refl, true, false, String, none, some, List, [], ◌∷◌, find}
use spot_instance_training_o.Api.Instance.{ProvisionedInstance}
use spot_instance_training_o.Api.Training.{SpotInstanceJob}
use spot_instance_training_o.Api.Kube.{Job}
use spot_instance_training_o.Cluster.Errors.{Error, ok, err, is_not_found}
use spot_instance_training_o.Cluster.Events.{Trace, job_deleted}
use spot_instance_training_o.Cluster.Prog.{World, ◌>>=◌}
use spot_instance_training_o.Cluster.Env.{Env}
use spot_instance_training_o.Cluster.Hoare.{
  Yields, Delivers, Ensures-pure, Ensures-act_of, Ensures-ask_of, Ensures-bind, Triple-of,
}
use spot_instance_training_o.TrainingController.Names.{replica_of, is_updated}
use spot_instance_training_o.TrainingController.Jobs.{is_ready}
use spot_instance_training_o.TrainingController.Restore.{
  Fields, index_of, waiting, choose_node, replace_job, update_job_with_checkpoint,
}
use spot_instance_training_o.Api.Meta.{Labels}
use spot_instance_training_o.Base.{decimal_ℤ, ℤ}

choose_node-none :
    (index : ℤ) (items : List ProvisionedInstance)
    → find is_ready items ≡ none
    → (e : Error) × (choose_node index (ok items) ≡ err e)
unfolding choose_node
choose_node-none index [] h = (waiting index "created", refl)
choose_node-none index (pi ∷ items) h = (waiting index "ready", rw (choose_node, h) refl)

module _ {C S W : Type 0} (env : Env C S W) (sj : SpotInstanceJob) (name : String) (images : Labels)
    (job : Job) (before : Trace) (items : List ProvisionedInstance) where
  replace_job-loses :
      ((s : W) → (env.client.delete_job job s).0 ≡ ok tt)
      → ((s : W)
          → (env.client.list_instances sj.meta.namespace
              (replica_of sj (decimal_ℤ (index_of job)))
              s).0
            ≡ ok items)
      → find is_ready items ≡ none
      → Delivers
          (λ t. t ≡ before)
          (replace_job env sj name images job)
          (λ r t. (t ≡ job_deleted job (ok tt) ∷ before) × ((e : Error) × (r ≡ err e)))
  unfolding replace_job
  replace_job-loses gone listed unready =
      let (e, waits) = choose_node-none (index_of job) items unready in
      Ensures-bind {Q = λ a t. (a ≡ ok tt) × (t ≡ job_deleted job (ok tt) ∷ before)}
        (Ensures-act_of (λ a. a ≡ ok tt) _ _ gone (λ a t same h. (same, rw (same, h) refl)))
        λ a.
          Triple-of (λ t h. h.0)
            λ same. rw same (
              Ensures-bind {Q = λ b t. (b ≡ ok items) × (t ≡ job_deleted job (ok tt) ∷ before)}
                (Ensures-ask_of (λ b. b ≡ ok items) _ listed (λ b t there h. (there, h.1)))
                λ b.
                  Triple-of (λ t h. h.0)
                    λ there.
                      let chosen : choose_node (index_of job) b ≡ err e = rw there waits in
                      rw chosen (Ensures-pure _ (λ t h. (h.1, (e, refl)))))

-- A job that is not updated yet is found under the name, its deletion is accepted, and no instance of
-- its replica that is listed is ready: then the call deletes the job, creates none, and returns an
-- error. A later call that is answered that there is no such job succeeds and writes nothing.
pub update_job_with_checkpoint-loses :
    {C S W : Type 0} (env : Env C S W) (sj : SpotInstanceJob) (name : String)
    (containers : List Fields) (w : World W) (job : Job) (s : W) (items : List ProvisionedInstance)
    (later : World W) (e : Error) (s' : W)
    → env.client.get_job sj.meta.namespace name w.state ≡ (ok job, s)
    → is_updated job ≡ false
    → ((s : W) → (env.client.delete_job job s).0 ≡ ok tt)
    → ((s : W)
        → (env.client.list_instances sj.meta.namespace
            (replica_of sj (decimal_ℤ (index_of job)))
            s).0
          ≡ ok items)
    → find is_ready items ≡ none
    → env.client.get_job sj.meta.namespace name later.state ≡ (err e, s')
    → is_not_found e ≡ true
    → Yields
        (update_job_with_checkpoint env sj name containers w)
        (λ r t. (t ≡ job_deleted job (ok tt) ∷ w.trace) × ((e : Error) × (r ≡ err e)))
      × (update_job_with_checkpoint env sj name containers later
          ≡ some (ok tt, record later { state = s' }))
unfolding update_job_with_checkpoint ◌>>=◌
update_job_with_checkpoint-loses env sj name containers w job s items later e s' found fresh gone
      listed unready absent missing =
    (
      rw (found, fresh)
          ((replace_job-loses env sj name _ job w.trace items gone listed unready).at
            (record w { state = s }) refl),
      rw (absent, missing) refl,
    )
