-- ===== src/Tests/Runs.antt =====
-- Each theorem with conditions or arguments, at concrete objects.
use spot_instance_training_o.Base.{
  List, ℕ, ◌≡◌, refl, false, String, append, none, some, [], ◌∷◌, pos, select, starts_with,
  contains, str_eq, arith,
}
use spot_instance_training_o.Api.Instance.{ProvisionedInstance}
use spot_instance_training_o.Api.Meta.{Labels}
use spot_instance_training_o.Api.Kube.{Job}
use spot_instance_training_o.Api.Training.{SpotInstanceJob}
use spot_instance_training_o.TrainingController.Jobs.{reconcile_job_replicas}
use spot_instance_training_o.TrainingController.Jobs.Gaps.{Fills, reconcile_job_replicas-Fills}
use spot_instance_training_o.Api.Compute.{Instance}
use spot_instance_training_o.Cluster.Errors.{Error, ok, err, new_error}
use spot_instance_training_o.Cluster.Env.{Env}
use spot_instance_training_o.Cluster.Hoare.{Yields}
use spot_instance_training_o.InstanceController.Fetch.{JoinInfo}
use spot_instance_training_o.InstanceController.Status.{
  update_instance_status, check_and_update_instance_status, terminated,
}
use spot_instance_training_o.InstanceController.Provision.{provision_instance, join_command}
use spot_instance_training_o.InstanceController.Reconcile.{reconcile}
use spot_instance_training_o.InstanceController.Guard.{IsGuarded}
use spot_instance_training_o.InstanceController.Guard.Kept.{reconcile-IsGuarded}
use spot_instance_training_o.InstanceController.Report.{
  Sent, LooksAgain, last_status, update_instance_status-reports, check-mistakes_name_for_gone,
}
use spot_instance_training_o.InstanceController.Creation.{
  OnlyIfMissing, wanted, provision_instance-OnlyIfMissing, wanted-joins,
}
use spot_instance_training_o.TrainingController.Names.{replica_of, spot_instance_job_finalizer}
use spot_instance_training_o.TrainingController.Status.{handle_deletion}
use spot_instance_training_o.TrainingController.Status.Cleanup.{Cleans, handle_deletion-Cleans}
use spot_instance_training_o.TrainingController.Indices.{skip_taken}
use spot_instance_training_o.TrainingController.Indices.Search.{Found, skip_taken-Found}
use spot_instance_training_o.TrainingController.Instances.{
  taken_indices, reconcile_provisioned_instances,
}
use spot_instance_training_o.TrainingController.Instances.Endless.{
  Refusing, reconcile_provisioned_instances-never_ends,
}
use spot_instance_training_o.TrainingController.Instances.Creates.{Creates, created_labels}
use spot_instance_training_o.TrainingController.Instances.Fresh.{
  Accepting, reconcile_provisioned_instances-Creates,
}
use spot_instance_training_o.Tests.Objects.{job_of, instance_of, vm_of, template, training}
use spot_instance_training_o.Tests.Clouds.{
  env_of, env_of-TemplateLaw, one_place, util-NamespaceLaw, util-FinalizerLaws, util-OwnerLaw,
  cloud_of-Settling, accepting, refusing, start, provisioner,
}

-- An object that is being deleted and records a VM.
abbrev leaving : ProvisionedInstance
leaving = instance_of "bert-0" "bert-0" "RUNNING" [] (some 1)

abbrev leaving_env : Env (Unit {0}) (Unit {0}) (Unit {0})
leaving_env = env_of leaving [] [] (ok (vm_of "bert-0" "RUNNING")) accepting

reconcile-IsGuarded_example :
    Yields
      (reconcile leaving_env "default" "bert-0" start)
      (λ _ t. IsGuarded leaving_env.util one_place t)
reconcile-IsGuarded_example =
    reconcile-IsGuarded leaving_env one_place util-FinalizerLaws util-NamespaceLaw
      (env_of-TemplateLaw _ _ _) (cloud_of-Settling _ _) "default" "bert-0" tt

abbrev stopping : Instance
stopping = vm_of "bert-0" "STOPPING"

update_instance_status-reports_example :
    Yields
      (update_instance_status leaving_env.client leaving stopping start)
      (λ out t. Sent stopping leaving.status t × LooksAgain stopping out)
update_instance_status-reports_example =
    update_instance_status-reports leaving_env.client leaving stopping start

-- An object whose VM is named with the digits 404.
abbrev unlucky : ProvisionedInstance
unlucky = instance_of "bert-404" "bert-404" "RUNNING" [] none

abbrev timeout : Error
timeout = new_error "Get instances/bert-404: i/o timeout"

abbrev unlucky_env : Env (Unit {0}) (Unit {0}) (Unit {0})
unlucky_env = env_of unlucky [] [] (err timeout) accepting

check-mistakes_name_for_gone_example :
    Yields
      (check_and_update_instance_status unlucky_env unlucky template provisioner start)
      (λ out t. (last_status t ≡ some (terminated unlucky)) × (out.requeue_after ≡ 0))
unfolding contains
check-mistakes_name_for_gone_example =
    check-mistakes_name_for_gone unlucky_env unlucky template provisioner start timeout tt
      "Get instances/" ": i/o timeout" refl refl refl

-- The zone has a VM of another name only.
abbrev fresh_env : Env (Unit {0}) (Unit {0}) (Unit {0})
fresh_env =
    env_of leaving [] (vm_of "other" "RUNNING" ∷ []) (ok (vm_of "bert-0" "STAGING")) accepting

provision_instance-OnlyIfMissing_example :
    Yields (provision_instance fresh_env leaving template provisioner start) (λ _.
      OnlyIfMissing fresh_env leaving template []
        (select (λ i. starts_with i.name "bert-0") (vm_of "other" "RUNNING" ∷ [])))
provision_instance-OnlyIfMissing_example =
    provision_instance-OnlyIfMissing fresh_env leaving template provisioner start
      (vm_of "other" "RUNNING" ∷ []) tt (cloud_of-Settling _ _) refl

abbrev join : JoinInfo
join = record {
  token = "abc.def";
  ca_cert_hash = "sha256:1";
  control_plane_endpoint = "10.0.0.1:6443";
}

wanted-joins_example :
    (head : String) × ((wanted fresh_env leaving template [] join).metadata
      ≡ some (record { key = "startup-script"; value = append head (join_command join) } ∷ []))
    × (str_eq template.spec.startup_script "" ≡ false
        → head ≡ append template.spec.startup_script "\n")
wanted-joins_example = wanted-joins fresh_env leaving template [] join

skip_taken-Found_example :
    (j : ℕ) × (skip_taken (pos 6) (pos 2 ∷ pos 0 ∷ pos 1 ∷ []) (pos 0) ≡ some (pos j))
    × Found 6 (pos 2 ∷ pos 0 ∷ pos 1 ∷ []) 0 j
skip_taken-Found_example =
    skip_taken-Found 6 (pos 2 ∷ pos 0 ∷ pos 1 ∷ []) 0 (omega arith) (omega arith)

-- Of three replicas, replica 1 has a VM that runs.
abbrev running : ProvisionedInstance
running = instance_of "bert-gpu-1-0" "bert-gpu-1-0" "RUNNING" (replica_of training "1") none

abbrev growing_env : Env (Unit {0}) (Unit {0}) (Unit {0})
growing_env = env_of running (running ∷ []) [] (ok stopping) accepting

growing_env-Accepting : Accepting growing_env
growing_env-Accepting = record { owns = λ owner m. (m, refl, refl); accepts = λ pi s. (pi, refl) }

reconcile_provisioned_instances-Creates_example :
    Yields
      (reconcile_provisioned_instances growing_env training template start)
      (λ r t. (r ≡ ok tt) × Creates 6 (taken_indices (running ∷ [])) 0 2 [] (created_labels t))
reconcile_provisioned_instances-Creates_example =
    reconcile_provisioned_instances-Creates growing_env training template start 3 (running ∷ []) tt
      growing_env-Accepting refl (omega arith) refl (omega arith) refl (omega arith)

abbrev refusing_env : Env (Unit {0}) (Unit {0}) (Unit {0})
refusing_env = env_of running (running ∷ []) [] (ok stopping) refusing

refusing_env-Refusing : Refusing refusing_env
refusing_env-Refusing = record {
  owns = λ owner m. (m, refl);
  refuses = λ pi s. (new_error "exceeded quota", refl);
}

reconcile_provisioned_instances-never_ends_example :
    reconcile_provisioned_instances refusing_env training template start ≡ none
reconcile_provisioned_instances-never_ends_example =
    reconcile_provisioned_instances-never_ends refusing_env training template start 3 (running ∷ [])
      tt refusing_env-Refusing refl (omega arith) refl (omega arith) refl

-- The training job, marked by its controller.
abbrev ending : SpotInstanceJob
ending = record training {
  meta = record training.meta { finalizers = spot_instance_job_finalizer ∷ [] };
}

handle_deletion-Cleans_example :
    Yields
      (handle_deletion growing_env ending start)
      (Cleans growing_env ending [] [] (ok (running ∷ [])))
handle_deletion-Cleans_example =
    handle_deletion-Cleans growing_env ending start (ok (running ∷ [])) (λ s. refl) refl

-- Replica 0 has a job that runs; a list for one replica shows none.
abbrev listed_jobs : Labels → List Job
listed_jobs (_ ∷ []) = job_of "bert-replica-0-7" "0" ∷ []
listed_jobs _ = []

abbrev jobs_env : Env (Unit {0}) (Unit {0}) (Unit {0})
jobs_env = record growing_env {
  client = record growing_env.client {
    list_jobs = λ namespace labels s. (ok (listed_jobs labels), s);
  };
}

reconcile_job_replicas-Fills_example :
    Yields
      (reconcile_job_replicas jobs_env training start)
      (λ r t. (r ≡ ok tt) × Fills 3 (job_of "bert-replica-0-7" "0" ∷ []) [] 0 t)
reconcile_job_replicas-Fills_example =
    reconcile_job_replicas-Fills jobs_env training start 3 (job_of "bert-replica-0-7" "0" ∷ []) tt
      util-OwnerLaw refl (omega arith) refl (omega arith)
