-- ===== src/TrainingController/Backup.antt =====
-- spotinstancejob_checkpoint.go, `createCheckpointForJob`: a checkpoint is asked for of a pod of a job.
pub mod Alive
pub mod Asked
pub mod Never
pub mod Images
use Prim.Native.Char.{code}
use spot_instance_training_o.Base.{
  ℕ, ◌/◌, ◌==◌, Bool, true, false, ◌&&◌, not, String, append, Option, none, some, List, [], ◌∷◌,
  map, any, decimal, if◌then◌else◌,
}
use spot_instance_training_o.Api.Meta.{Labels, is_deleting, has_label}
use spot_instance_training_o.Api.Training.{SpotInstanceJob}
use spot_instance_training_o.Api.Kube.{Job, Pod, Container, Checkpoint, NewCheckpoint}
use spot_instance_training_o.Cluster.Errors.{
  Result, ok, err, second, is_not_found, is_already_exists,
}
use spot_instance_training_o.Cluster.Events.{checkpoint_created}
use spot_instance_training_o.Cluster.Prog.{Prog, pure, branch, ◌>>=◌, ask, act}
use spot_instance_training_o.Cluster.Env.{Env}
use spot_instance_training_o.TrainingController.Names.{spot_instance_job_label}
use spot_instance_training_o.TrainingController.Checkpoints.{is_pending, is_completed}
use spot_instance_training_o.TrainingController.Instances.{fresh_meta}
use spot_instance_training_o.TrainingController.Restore.{has_registry, registry_url}
use spot_instance_training_o.TrainingController.Pods.{first_alive}

-- `parts[1]` of `strings.SplitN(s, "/", 2)`, empty where there is no slash.
unfoldable pub after_slash : String → String
after_slash String.[] = ""
after_slash (String.◌∷◌ c s) = if code c == b'/' then s else after_slash s

-- The repository, without the registry if there is one.
unfoldable pub repository : String → String
unfolding has_registry after_slash
repository repo = if has_registry repo then after_slash repo else repo

-- "{repository}:{container}-{seconds}"
abbrev pub checkpoint_image : String → ℕ → String → String
checkpoint_image repo seconds name =
    append (repository repo) (append ":" (append name (append "-" (decimal seconds))))

-- One image for each container of the pod.
abbrev pub checkpoint_images : String → ℕ → List Container → List Container
checkpoint_images repo seconds =
    map (λ c. record { name = c.name; image = checkpoint_image repo seconds c.name })

-- The labels that tell the checkpoints of a job.
abbrev pub checkpoints_of : String → Labels
checkpoints_of name = ("training.dcnlab.com/job", name) ∷ []

-- The CheckpointBackup to create, at a time in seconds.
unfoldable pub new_checkpoint : SpotInstanceJob → String → Pod → ℕ → NewCheckpoint
unfolding repository
new_checkpoint sj name pod seconds =
    let repo = sj.spec.checkpoint_config.checkpoint_image_repo in
    record {
      meta =
          fresh_meta
            (append sj.meta.name (append "-" (append pod.meta.name (append "-" (decimal seconds)))))
            sj.meta.namespace ((spot_instance_job_label, sj.meta.name) ∷ checkpoints_of name);
      spec = record {
        schedule = "immediately";
        stop_pod = false;
        pod_name = pod.meta.name;
        pod_namespace = pod.meta.namespace;
        resource_api_version = "batch/v1";
        resource_kind = "Job";
        resource_name = name;
        resource_namespace = sj.meta.namespace;
        registry_url = registry_url repo;
        registry_repository = repository repo;
        registry_secret_ref = sj.spec.checkpoint_config.checkpoint_repo_credential_ref;
        containers = checkpoint_images repo seconds pod.containers;
      };
    }

abbrev pub is_restored : Job → Bool
is_restored job = not (is_deleting job.meta) && has_label "restored-from" job.meta.labels

-- Some job was listed.
abbrev some_job : Result (List Job) → Bool
some_job (err e) = false
some_job (ok []) = false
some_job (ok (_ ∷ _)) = true

module _ {C S W : Type 0} (env : Env C S W) (sj : SpotInstanceJob) (name : String) where
  -- Whether a job with a completed checkpoint may have another one.
  unfoldable pub was_recreated : Prog W Bool
  was_recreated = do
    found ← ask (env.client.get_job sj.meta.namespace name)
    elim found [
      | ok job ↦ pure (is_restored job)
      | err e ↦
          branch (is_not_found e)
            (do
              restored ← ask (env.client.list_jobs sj.meta.namespace (("restored-from", name) ∷ []))
              pure (some_job restored))
            (pure true)
    ]

  -- Whether a checkpoint may be created, by those that the job has. A failed list counts as none.
  unfoldable pub may_create : Result (List Checkpoint) → Prog W Bool
  may_create (err e) = pure true
  may_create (ok cps) =
      branch (any is_pending cps) (pure false)
        (branch (any is_completed cps) was_recreated (pure true))

  -- The pods of the job, by one label or else by another.
  unfoldable pub job_pods : Prog W (Result (List Pod))
  job_pods = do
    listed ← ask (env.client.list_pods sj.meta.namespace (("job-name", name) ∷ []))
    elim listed [
      | ok pods ↦ pure (ok pods)
      | err e ↦
          ask (env.client.list_pods sj.meta.namespace (("batch.kubernetes.io/job-name", name) ∷ []))
    ]

  -- A checkpoint that is there already is not an error.
  unfoldable pub create_checkpoint_of : Option Pod → Prog W (Result (Unit {0}))
  create_checkpoint_of none = pure (ok tt)
  create_checkpoint_of (some pod) = do
    now ← ask env.client.now
    let cp = new_checkpoint sj name pod (now / second)
    created ← act (env.client.create_checkpoint cp) (checkpoint_created cp)
    pure (elim created [ ok _ ↦ ok tt | err e ↦ if is_already_exists e then ok tt else err e ])

  unfoldable pub checkpoint_pods : Result (List Pod) → Prog W (Result (Unit {0}))
  checkpoint_pods (err e) = pure (err e)
  checkpoint_pods (ok pods) = do alive ← first_alive env "" pods; create_checkpoint_of alive

  unfoldable pub create_checkpoint_for_job : Prog W (Result (Unit {0}))
  create_checkpoint_for_job = do
    listed ← ask (env.client.list_checkpoints sj.meta.namespace (checkpoints_of name))
    allowed ← may_create listed
    branch allowed (do pods ← job_pods; checkpoint_pods pods) (pure (ok tt))
