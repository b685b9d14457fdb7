-- ===== src/Tests/Preemptions.antt =====
-- Checkpoints and preemption at concrete objects: a replica on a VM that is preempted, and one that runs.
use mathlib.Core.Path.{subst}
use spot_instance_training_o.Base.{
  ◌≡◌, refl, ap, sym, Bool, true, String, none, some, List, [], ◌∷◌, pos, any, All, map, append,
  decimal, str_eq, Option, if◌then◌else◌,
}
use spot_instance_training_o.Api.Meta.{ObjectMeta, label}
use spot_instance_training_o.Api.Instance.{ProvisionedInstance}
use spot_instance_training_o.Api.Kube.{Job, Pod, Node, Checkpoint, mapping, text}
use spot_instance_training_o.Cluster.Errors.{ok}
use spot_instance_training_o.Cluster.Env.{Env}
use spot_instance_training_o.Cluster.Client.{Util}
use spot_instance_training_o.Cluster.Extends.{Extends}
use spot_instance_training_o.Cluster.Hoare.{Yields}
use spot_instance_training_o.TrainingController.Names.{replica_of, is_in}
use spot_instance_training_o.TrainingController.Checkpoints.{is_completed, is_pending}
use spot_instance_training_o.TrainingController.Restore.Kept.{GetLaw}
use spot_instance_training_o.TrainingController.Jobs.Attempts.{OwnerLaw}
use spot_instance_training_o.TrainingController.Restore.{restored_job, image_map, registry_url}
use spot_instance_training_o.TrainingController.Pods.{jobs_on_node, is_on_node}
use spot_instance_training_o.TrainingController.Pods.OnNode.{
  is_pod_of, is_pod_on, is_in-jobs_on_node,
}
use spot_instance_training_o.TrainingController.Backup.{
  checkpoint_images, create_checkpoint_for_job,
}
use spot_instance_training_o.TrainingController.Backup.Alive.{
  Backs, create_checkpoint_for_job-Backs,
}
use spot_instance_training_o.TrainingController.Backup.Never.{create_checkpoint_for_job-never_again}
use spot_instance_training_o.TrainingController.Backup.Images.{
  full_repository, reported, image_map-restores,
}
use spot_instance_training_o.TrainingController.Latest.{latest}
use spot_instance_training_o.TrainingController.Latest.Newest.{IsNewest, latest-IsNewest}
use spot_instance_training_o.TrainingController.Preemption.{handle_preemption}
use spot_instance_training_o.TrainingController.Preemption.Chosen.{Covers, Passes}
use spot_instance_training_o.TrainingController.Preemption.Touched.{
  HandledBy, handle_preemption-Touches,
}
use spot_instance_training_o.TrainingController.Reconcile.{reconcile}
use spot_instance_training_o.TrainingController.Reconcile.Waits.{
  IsOwnWrite, LooksSoon, reconcile-Waits,
}
use spot_instance_training_o.Tests.Objects.{meta_of, instance_of, job_of, vm_of, training}
use spot_instance_training_o.Tests.Clouds.{
  in_order, in_order-RangeLaw, env_of, accepting, start, util, util-OwnerLaw,
}

abbrev ready_node : String → Node
ready_node name = record {
  meta = meta_of name [] none;
  conditions = record { type = "Ready"; status = "True" } ∷ [];
}

-- A pod of a job of the training job, on a node.
abbrev pod_on : String → String → Pod
pod_on node job = record {
  meta =
      meta_of (append job "-x")
        (("training.dcnlab.com/spot-instance-job", "bert") ∷ ("job-name", job) ∷ []) none;
  node_name = node;
  containers = record { name = "train"; image = "bert:1" } ∷ [];
}

abbrev checkpoint_at : String → Option String → Checkpoint
checkpoint_at phase time = record {
  meta = meta_of "cp-1" (("training.dcnlab.com/job", "bert-replica-1-7") ∷ []) none;
  status = some (record {
    phase = some phase;
    completion_time = time;
    containers = some (mapping (("name", text "train") ∷ ("image", text "bert:7") ∷ []) ∷ []);
    built_images = none;
  });
}

-- The VM of replica 0 is preempted, that of replica 1 runs.
abbrev gone : ProvisionedInstance
gone = instance_of "bert-gpu-0-7" "bert-gpu-0-7" "TERMINATED" (replica_of training "0") none

abbrev alive : ProvisionedInstance
alive = instance_of "bert-gpu-1-7" "bert-gpu-1-7" "RUNNING" (replica_of training "1") none

abbrev pods : List Pod
pods = pod_on "vm-0" "bert-replica-0-7" ∷ pod_on "vm-1" "bert-replica-1-7" ∷ []

abbrev base_env : Env (Unit {0}) (Unit {0}) (Unit {0})
base_env = env_of gone (gone ∷ alive ∷ []) [] (ok (vm_of "bert-gpu-0-7" "TERMINATED")) accepting

-- Given checkpoints; each job that is asked for is there.
abbrev env_with : List Checkpoint → Env (Unit {0}) (Unit {0}) (Unit {0})
env_with cps = record base_env {
  client = record base_env.client {
    get_node = λ name s. (ok (ready_node name), s);
    get_job = λ namespace name s. (ok (job_of name "0"), s);
    list_jobs = λ namespace labels s. (ok (job_of "bert-replica-0-7" "0" ∷ []), s);
    list_pods = λ namespace labels s. (ok pods, s);
    list_checkpoints = λ namespace labels s. (ok cps, s);
  };
}

create_checkpoint_for_job-Backs_example :
    Yields
      (create_checkpoint_for_job (env_with []) training "bert-replica-1-7" start)
      (Backs (env_with []) training "bert-replica-1-7" (ok []) (λ name. ok (ready_node name)) [])
create_checkpoint_for_job-Backs_example =
    create_checkpoint_for_job-Backs (env_with []) training "bert-replica-1-7" (ok [])
      (λ name. ok (ready_node name)) start (λ s. refl) (λ name s. refl)

abbrev done : Checkpoint
done = checkpoint_at "Completed" (some "2025-01-01T00:00:00Z")

-- Setting the owner reference adds one.
abbrev owned : ObjectMeta → ObjectMeta → ObjectMeta
owned owner m = record m {
  owner_references = record { uid = owner.uid; controller = true } ∷ m.owner_references;
}

abbrev owning : Util
owning = record util { set_controller_reference = λ owner m. ok (owned owner m) }

owning-OwnerLaw : OwnerLaw owning
owning-OwnerLaw = record {
  labels = λ owner m m' h. let e : owned owner m ≡ m' = cc h in ap (λ n. n.labels) (sym e);
  name = λ owner m m' h. let e : owned owner m ≡ m' = cc h in ap (λ n. n.name) (sym e);
  annotations =
      λ owner m m' h. let e : owned owner m ≡ m' = cc h in ap (λ n. n.annotations) (sym e);
}

abbrev restored : Job
restored = restored_job training "bert-replica-1-7" (job_of "bert-replica-1-7" "1") [] "vm-1"

abbrev owned_meta : ObjectMeta
owned_meta = owned training.meta restored.meta

-- The job as it runs: with its owner, an identity and an active pod.
abbrev running_job : Job
running_job = record restored {
  meta = record owned_meta { uid = "1f0c"; creation_timestamp = 1_740_412_345 };
  active = pos 1;
}

abbrev restored_env : Env (Unit {0}) (Unit {0}) (Unit {0})
restored_env = record base_env {
  client = record (env_with (done ∷ [])).client {
    get_job = λ namespace name s. (ok running_job, s);
  };
  util = owning;
}

create_checkpoint_for_job-never_again_example :
    Yields
      (create_checkpoint_for_job restored_env training "bert-replica-1-7" start)
      (λ r t. (r ≡ ok tt) × (t ≡ []))
unfolding is_completed
create_checkpoint_for_job-never_again_example =
    create_checkpoint_for_job-never_again restored_env training "bert-replica-1-7"
      (job_of "bert-replica-1-7" "1") [] "vm-1" owned_meta (done ∷ []) start owning-OwnerLaw refl
      (λ s. refl) (λ s. refl) refl

image_map-restores_example :
    label "train" (
      image_map
        (registry_url "registry/bert")
        (map reported
          (checkpoint_images "registry/bert" 7 ((pod_on "vm-0" "bert-replica-0-7").containers)))
        [])
    ≡ some (
        append
          (full_repository "registry/bert")
          (append ":" (append "train" (append "-" (decimal 7)))))
image_map-restores_example =
    image_map-restores "registry/bert" 7 "train" ((pod_on "vm-0" "bert-replica-0-7").containers)

is_in-jobs_on_node_example :
    is_in (jobs_on_node training "vm-0" pods []) "bert-replica-0-7"
    ≡ any (is_pod_on training "vm-0" "bert-replica-0-7") pods
is_in-jobs_on_node_example = is_in-jobs_on_node training "vm-0" "bert-replica-0-7" pods

-- Texts of one digit are times here.
abbrev timed : Util
timed = record util { parse_time = λ s. if str_eq s "1" then some (pos 1) else some (pos 2) }

abbrev history : List Checkpoint
history =
    checkpoint_at "Completed" (some "1")
    ∷ checkpoint_at "CompletedPodDeleted" (some "2")
    ∷ checkpoint_at "Failed" (some "2")
    ∷ []

latest-IsNewest_example : IsNewest timed history (latest timed history none)
latest-IsNewest_example = latest-IsNewest timed history

env_with-GetLaw : (cps : List Checkpoint) → GetLaw (env_with cps).client
env_with-GetLaw cps = record { name = λ namespace name s job h. cc }

abbrev is_replica_0 : String → Bool
is_replica_0 name = str_eq name "bert-replica-0-7"

Passes-listed :
    (jobs : List Job)
    → ok (job_of "bert-replica-0-7" "0" ∷ []) ≡ ok jobs
    → All (Passes is_replica_0) jobs
Passes-listed jobs listed =
    let e : (job_of "bert-replica-0-7" "0" ∷ []) ≡ jobs = cc listed in
    subst (All (Passes is_replica_0)) e ((λ _. refl), tt)

none_nowhere :
    (ps : List Pod) (name : String)
    → ok pods ≡ ok ps
    → any (is_pod_of training "" name) ps ≡ true
    → is_replica_0 name ≡ true
unfolding is_on_node
none_nowhere ps name listed h =
    let e : ps ≡ pods = cc listed in
    let k : any (is_pod_of training "" name) pods ≡ true =
      subst (λ l. any (is_pod_of training "" name) l ≡ true) e h in
    absurd (cc k)

gone-Covers : Covers (env_with (done ∷ [])) training is_replica_0 gone
gone-Covers = record {
  by_index = λ s jobs listed. Passes-listed jobs listed;
  by_node = λ s ps name listed h. none_nowhere ps name listed h;
}

handle_preemption-Touches_example :
    Yields
      (handle_preemption (env_with (done ∷ [])) in_order training start)
      (HandledBy is_replica_0 [] (ok (gone ∷ alive ∷ [])))
handle_preemption-Touches_example =
    handle_preemption-Touches (env_with (done ∷ [])) in_order training is_replica_0
      (ok (gone ∷ alive ∷ [])) start (λ s. refl) in_order-RangeLaw (env_with-GetLaw (done ∷ []))
      util-OwnerLaw ((λ _. gone-Covers), ((λ h. absurd (cc h)), tt))

abbrev waiting_env : Env (Unit {0}) (Unit {0}) (Unit {0})
waiting_env = env_with (checkpoint_at "Checkpointing" none ∷ [])

reconcile-Waits_example :
    Yields
      (reconcile waiting_env in_order "default" "bert" start)
      (λ out t. Extends IsOwnWrite [] t × LooksSoon out)
unfolding is_pending
reconcile-Waits_example =
    reconcile-Waits waiting_env in_order "default" "bert" training start
      (λ namespace labels s. refl) (λ s. refl) refl
