-- ===== src/TrainingController/Status/Cleanup.antt =====
-- `handleDeletion` of a training job.
use spot_instance_training_o.Base.{◌≡◌, refl, true, none, some, List, [], ◌∷◌}
use spot_instance_training_o.Api.Instance.{ProvisionedInstance}
use spot_instance_training_o.Api.Training.{SpotInstanceJob}
use spot_instance_training_o.Api.Kube.{Checkpoint}
use spot_instance_training_o.Cluster.Errors.{Result, ok, err, Outcome, failed}
use spot_instance_training_o.Cluster.Events.{Trace, training_updated, instance_deleted}
use spot_instance_training_o.Cluster.Prog.{World}
use spot_instance_training_o.Cluster.Env.{Env}
use spot_instance_training_o.Cluster.Hoare.{
  Yields, Delivers, Preserves, Ensures-pure, Ensures-act, Ensures-bind, Ensures-branch,
  Ensures-ask_of, Keeps-then, Keeps-pure, Keeps-act, Keeps-ask, Triple-before, Triple-of,
}
use spot_instance_training_o.TrainingController.Names.{owned_by, spot_instance_job_finalizer}
use spot_instance_training_o.TrainingController.Status.{
  delete_checkpoints, clean_checkpoints, delete_instances, released, release, clean_instances,
  handle_deletion,
}

-- The instances whose deletion was asked for, the latest first.
abbrev pub deleted_instances : Trace → List ProvisionedInstance
deleted_instances [] = []
deleted_instances (instance_deleted pi answer ∷ t) = pi ∷ deleted_instances t
deleted_instances (e ∷ t) = deleted_instances t

-- The training jobs that were written, the latest first.
abbrev pub training_updates : Trace → List SpotInstanceJob
training_updates [] = []
training_updates (training_updated sj answer ∷ t) = sj ∷ training_updates t
training_updates (e ∷ t) = training_updates t

-- The entries put before the others, one after the other.
abbrev pub onto : {A : Type 0} → List A → List A → List A
onto [] old = old
onto (x ∷ xs) old = onto xs (x ∷ old)

module _ {C S W : Type 0} (env : Env C S W) (sj : SpotInstanceJob) (old : List ProvisionedInstance)
    (written : List SpotInstanceJob) where
  -- Nothing but the listed deletions has been asked for.
  abbrev pub Asked : List ProvisionedInstance → Trace → Type 0
  Asked gone t = (deleted_instances t ≡ gone) × (training_updates t ≡ written)

  -- What the deletion does, by what the list of the instances answers.
  abbrev pub Cleans : Result (List ProvisionedInstance) → Outcome → Trace → Type 0
  Cleans (err e) out t = (out ≡ failed e) × Asked old t
  Cleans (ok items) out t =
      (answer : Result SpotInstanceJob) × (before : Trace) × (t
        ≡ training_updated (released env sj) answer ∷ before)
      × Asked (onto items old) before
      × (out.error ≡ elim answer [ ok _ ↦ none | err e ↦ some e ])

  delete_checkpoints-Keeps :
      (gone : List ProvisionedInstance) (cps : List Checkpoint)
      → Preserves ⊥ (Asked gone) (delete_checkpoints env cps)
  unfolding delete_checkpoints
  delete_checkpoints-Keeps gone [] = Keeps-pure _
  delete_checkpoints-Keeps gone (cp ∷ cps) =
      Keeps-then (Keeps-act _ _ (λ a t h. h)) (λ _. delete_checkpoints-Keeps gone cps)

  clean_checkpoints-Keeps :
      (gone : List ProvisionedInstance) (r : Result (List Checkpoint))
      → Preserves ⊥ (Asked gone) (clean_checkpoints env r)
  unfolding clean_checkpoints
  clean_checkpoints-Keeps gone (err e) = Keeps-pure _
  clean_checkpoints-Keeps gone (ok cps) = delete_checkpoints-Keeps gone cps

  delete_instances-Asked :
      (items gone : List ProvisionedInstance)
      → Delivers (Asked gone) (delete_instances env items) (λ _. Asked (onto items gone))
  unfolding delete_instances
  delete_instances-Asked [] gone = Keeps-pure _
  delete_instances-Asked (pi ∷ items) gone =
      Ensures-bind {Q = λ _. Asked (pi ∷ gone)} (Ensures-act _ _ (λ a t h. (rw (h.0) refl, h.1)))
        (λ _. delete_instances-Asked items (pi ∷ gone))

  release-Cleans :
      (items : List ProvisionedInstance)
      → Delivers (Asked (onto items old)) (release env sj) (Cleans (ok items))
  unfolding release
  release-Cleans items =
      Ensures-bind
        {Q = λ a t.
          (before : Trace) × (t ≡ training_updated (released env sj) a ∷ before)
          × Asked (onto items old) before}
        (Ensures-act _ _ (λ a t h. (t, refl, h)))
        elim [
          | err e ↦ Ensures-pure _ (λ t h. (err e, h.0, h.1, h.2, refl))
          | ok o ↦ Ensures-pure _ (λ t h. (ok o, h.0, h.1, h.2, refl))
        ]

  clean_instances-Cleans :
      (r : Result (List ProvisionedInstance))
      → Delivers (Asked old) (clean_instances env sj r) (Cleans r)
  unfolding clean_instances
  clean_instances-Cleans (err e) = Ensures-pure _ (λ t h. (refl, h))
  clean_instances-Cleans (ok items) =
      Ensures-bind (delete_instances-Asked items old) (λ _. release-Cleans items)

  handle_deletion-Delivers :
      (r : Result (List ProvisionedInstance))
      → ((s : W) → (env.client.list_instances sj.meta.namespace (owned_by sj) s).0 ≡ r)
      → env.util.contains_finalizer sj.meta spot_instance_job_finalizer ≡ true
      → Delivers (Asked old) (handle_deletion env sj) (Cleans r)
  unfolding handle_deletion
  handle_deletion-Delivers r listed has =
      Ensures-branch
        (λ _. Keeps-then (Keeps-ask _) λ checkpoints.
          Keeps-then (clean_checkpoints-Keeps old checkpoints) λ _.
            Ensures-bind {Q = λ a t. (a ≡ r) × Asked old t}
              (Ensures-ask_of (λ a. a ≡ r) _ listed (λ a t same h. (same, h)))
              λ a.
                Triple-of (λ t h. h.0)
                  (λ same. rw same (Triple-before (λ t h. h.1) (clean_instances-Cleans r))))
        (λ lacks. absurd (cc (has, lacks)))

-- A training job that has the finalizer and is deleted, where each `List` of its instances answers `r`,
-- whatever the other calls answer: the call returns. If `r` is an error, it is returned, and neither an
-- instance nor the finalizer is touched. If `r` is a list, the deletion of each instance of the list is
-- asked for, in order and once, and only then the last write takes the finalizer off; an error is
-- returned exactly if that write fails.
pub handle_deletion-Cleans :
    {C S W : Type 0} (env : Env C S W) (sj : SpotInstanceJob) (w : World W)
    (r : Result (List ProvisionedInstance))
    → ((s : W) → (env.client.list_instances sj.meta.namespace (owned_by sj) s).0 ≡ r)
    → env.util.contains_finalizer sj.meta spot_instance_job_finalizer ≡ true
    → Yields
        (handle_deletion env sj w)
        (Cleans env sj (deleted_instances w.trace) (training_updates w.trace) r)
handle_deletion-Cleans env sj w r listed has =
    (handle_deletion-Delivers env sj (deleted_instances w.trace) (training_updates w.trace) r listed
        has).at
      w (refl, refl)
