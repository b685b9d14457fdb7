-- ===== src/TrainingController/Reconcile/Waits.antt =====
-- `Reconcile` of a training job while one of its checkpoints is pending.
use spot_instance_training_o.Base.{◌≡◌, refl, Bool, true, false, none, String, List, ◌*◌, any}
use spot_instance_training_o.Api.Meta.{is_deleting, Labels}
use spot_instance_training_o.Api.Template.{InstanceTemplate}
use spot_instance_training_o.Api.Training.{SpotInstanceJob}
use spot_instance_training_o.Api.Kube.{Job, Checkpoint}
use spot_instance_training_o.Cluster.Errors.{Result, ok, err, Outcome, second}
use spot_instance_training_o.Cluster.Events.{
  Event, Trace, training_updated, training_status_updated,
}
use spot_instance_training_o.Cluster.Prog.{World, Prog, pure, branch, ◌>>=◌}
use spot_instance_training_o.Cluster.Env.{Env}
use spot_instance_training_o.Cluster.Extends.{Extends, Extends-none, Extends-one}
use spot_instance_training_o.Cluster.Hoare.{
  Yields, Delivers, Preserves, Ensures-pure, Ensures-act, Ensures-bind, Ensures-branch,
  Ensures-ask_of, Keeps-then, Keeps-pure, Keeps-ask, Triple-of, Triple-before,
}
use spot_instance_training_o.TrainingController.Checkpoints.{is_pending, has_pending_checkpoints}
use spot_instance_training_o.TrainingController.Jobs.{fill_unless_pending, reconcile_job_replicas}
use spot_instance_training_o.TrainingController.Status.{update_status}
use spot_instance_training_o.TrainingController.Reconcile.{
  ensure_finalizer, ensure_status, fetch_instance_template, guard_preemption, guard_instances,
  finish, reconcile_replicas, reconcile_ready, reconcile_live, reconcile,
}

-- The list shows a checkpoint that is pending.
abbrev pub shows_pending : Result (List Checkpoint) → Bool
shows_pending (err e) = false
shows_pending (ok cps) = any is_pending cps

-- A write of the training job itself.
abbrev pub IsOwnWrite : Event → Type 0
IsOwnWrite (training_updated sj a) = Unit
IsOwnWrite (training_status_updated sj a) = Unit
IsOwnWrite _ = ⊥

-- The next look is in 30 seconds, unless there is an error.
abbrev pub LooksSoon : Outcome → Type 0
LooksSoon out = out.error ≡ none → out.requeue_after ≡ 30 * second

module _ {C S W : Type 0} (env : Env C S W) (range : List String → W → List String × W)
    (waits : (namespace : String) (labels : Labels) (s : W)
      → shows_pending (env.client.list_checkpoints namespace labels s).0 ≡ true)
    (old : Trace) where
  abbrev Own : Trace → Type 0
  Own = Extends IsOwnWrite old

  has_pending_checkpoints-Waits :
      (sj : SpotInstanceJob)
      → Delivers Own (has_pending_checkpoints env sj) (λ r t. (r ≡ ok true) × Own t)
  unfolding has_pending_checkpoints
  has_pending_checkpoints-Waits sj =
      Ensures-bind {Q = λ a t. (shows_pending a ≡ true) × Own t}
        (Ensures-ask_of (λ a. shows_pending a ≡ true) _ (waits _ _) (λ a t h p. (h, p)))
        elim [
          | err e ↦ Ensures-pure _ (λ t h. absurd (cc (h.0)))
          | ok cps ↦ Ensures-pure _ (λ t h. (rw (h.0) refl, h.1))
        ]

  -- What follows a look at the checkpoints follows one that is pending.
  after_look :
      {A : Type 0} {Q : A → Trace → Type 0} (sj : SpotInstanceJob) (f : Result Bool → Prog W A)
      → Delivers Own (f (ok true)) Q
      → Delivers Own (has_pending_checkpoints env sj >>= f) Q
  after_look sj f h =
      Ensures-bind (has_pending_checkpoints-Waits sj)
        (λ r. Triple-of (λ t p. p.0) (λ same. rw same (Triple-before (λ t p. p.1) h)))

  fill_unless_pending-Waits :
      (sj : SpotInstanceJob) (jobs : List Job) → Preserves ⊥ Own (fill_unless_pending env sj jobs)
  unfolding fill_unless_pending branch pure
  fill_unless_pending-Waits sj jobs = after_look sj _ (Keeps-pure _)

  reconcile_job_replicas-Waits :
      (sj : SpotInstanceJob) → Preserves ⊥ Own (reconcile_job_replicas env sj)
  unfolding reconcile_job_replicas
  reconcile_job_replicas-Waits sj =
      Keeps-then (Keeps-ask _)
        elim [ err e ↦ Keeps-pure _ | ok jobs ↦ fill_unless_pending-Waits sj jobs ]

  update_status-Keeps : (sj : SpotInstanceJob) → Preserves ⊥ Own (update_status env sj)
  unfolding update_status
  update_status-Keeps sj = Keeps-then (Keeps-ask _) elim [
    | err e ↦ Keeps-pure _
    | ok jobs ↦ Ensures-act _ _ (λ a t h. Extends-one IsOwnWrite old _ t tt h)
  ]

  -- An error says nothing of the next look.
  failed-LooksSoon :
      (out : Outcome)
      → (out.error ≡ none → ⊥)
      → Delivers Own (pure {W = W} out) (λ out t. Own t × LooksSoon out)
  failed-LooksSoon out h = Ensures-pure out (λ t p. (p, λ e. absurd (h e)))

  finish-Waits :
      (sj : SpotInstanceJob)
      → Delivers Own (finish env range sj true) (λ out t. Own t × LooksSoon out)
  unfolding finish branch pure
  finish-Waits sj = Keeps-then (reconcile_job_replicas-Waits sj) elim [
    | err e ↦ failed-LooksSoon _ (λ h. cc h)
    | ok _ ↦ Keeps-then (update_status-Keeps sj) elim [
      | err e ↦ failed-LooksSoon _ (λ h. cc h)
      | ok _ ↦ Ensures-pure _ (λ t p. (p, λ _. refl))
    ]
  ]

  reconcile_replicas-Waits :
      (sj : SpotInstanceJob) (template : InstanceTemplate)
      → Delivers Own (reconcile_replicas env range sj template) (λ out t. Own t × LooksSoon out)
  unfolding reconcile_replicas guard_preemption guard_instances branch pure
  reconcile_replicas-Waits sj template = after_look sj _ (
      Keeps-then (Keeps-pure _) elim [
        | err e ↦ failed-LooksSoon _ (λ h. cc h)
        | ok _ ↦ after_look sj _ (
            Keeps-then (Keeps-pure _)
              elim [ err e ↦ failed-LooksSoon _ (λ h. cc h) | ok _ ↦ finish-Waits sj ])
      ])

  reconcile_live-Waits :
      (sj : SpotInstanceJob)
      → Delivers Own (reconcile_live env range sj) (λ out t. Own t × LooksSoon out)
  unfolding reconcile_live ensure_finalizer ensure_status reconcile_ready fetch_instance_template
  reconcile_live-Waits sj =
      Keeps-then
        (Ensures-branch (λ _. Keeps-pure _)
          (λ _. Ensures-act _ _ (λ a t h. Extends-one IsOwnWrite old _ t tt h)))
        elim [
          | err e ↦ failed-LooksSoon _ (λ h. cc h)
          | ok sj' ↦
              Keeps-then
                (Ensures-branch
                  (λ _. Ensures-act _ _ (λ a t h. Extends-one IsOwnWrite old _ t tt h))
                  (λ _. Keeps-pure _))
                elim [
                  | err e ↦ failed-LooksSoon _ (λ h. cc h)
                  | ok sj'' ↦ Keeps-then (Keeps-ask _) elim [
                    | err e ↦ failed-LooksSoon _ (λ h. cc h)
                    | ok template ↦ reconcile_replicas-Waits sj'' template
                  ]
                ]
        ]

  reconcile-Delivers :
      (namespace name : String) (sj : SpotInstanceJob)
      → ((s : W) → (env.client.get_training namespace name s).0 ≡ ok sj)
      → is_deleting sj.meta ≡ false
      → Delivers Own (reconcile env range namespace name) (λ out t. Own t × LooksSoon out)
  unfolding reconcile
  reconcile-Delivers namespace name sj found stays =
      Ensures-bind {Q = λ a t. (a ≡ ok sj) × Own t}
        (Ensures-ask_of (λ a. a ≡ ok sj) _ found (λ a t h p. (h, p)))
        λ a.
          Triple-of (λ t p. p.0)
            (λ same. rw same (
              Triple-before (λ t p. p.1)
                (Ensures-branch (λ deleting. absurd (cc (stays, deleting)))
                  (λ _. reconcile_live-Waits sj))))

-- A training job that is not being deleted, where every `List` of checkpoints shows one that is
-- pending, whatever the other calls answer: `Reconcile` returns, and it writes nothing but the training
-- job itself, so it creates no VM object, no job and no checkpoint and deletes nothing. If it returns
-- no error, it asks to be called again in 30 seconds.
pub reconcile-Waits :
    {C S W : Type 0} (env : Env C S W) (range : List String → W → List String × W)
    (namespace name : String) (sj : SpotInstanceJob) (w : World W)
    → ((namespace : String) (labels : Labels) (s : W)
        → shows_pending (env.client.list_checkpoints namespace labels s).0 ≡ true)
    → ((s : W) → (env.client.get_training namespace name s).0 ≡ ok sj)
    → is_deleting sj.meta ≡ false
    → Yields
        (reconcile env range namespace name w)
        (λ out t. Extends IsOwnWrite w.trace t × LooksSoon out)
reconcile-Waits env range namespace name sj w waits found stays =
    (reconcile-Delivers env range waits w.trace namespace name sj found stays).at w
      (Extends-none IsOwnWrite w.trace w.trace refl)
