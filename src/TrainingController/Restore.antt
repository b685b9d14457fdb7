-- ===== src/TrainingController/Restore.antt =====
-- spotinstancejob_job.go, `updateJobWithCheckpoint`: a job is deleted and created again with the images
-- of a checkpoint.
pub mod Replaced
pub mod Lost
pub mod Once
pub mod Kept
pub mod ReplicaIndex
use Prim.Native.Char.{code}
use spot_instance_training_o.Base.{
  ℕ, Bool, true, false, ◌||◌, ◌&&◌, ◌==◌, String, append, Option, none, some, List, [], ◌∷◌, ℤ, pos,
  find, map, str_eq, contains, decimal_ℤ, if◌then◌else◌,
}
use spot_instance_training_o.Api.Meta.{ObjectMeta, Labels, label, set_label}
use spot_instance_training_o.Api.Instance.{ProvisionedInstance}
use spot_instance_training_o.Api.Training.{SpotInstanceJob}
use spot_instance_training_o.Api.Kube.{Job, JobSpec, PodTemplate, Container, Value, text, other}
use spot_instance_training_o.Cluster.Errors.{
  Error, Result, ok, err, new_error, wrap, is_not_found, is_already_exists,
}
use spot_instance_training_o.Cluster.Events.{job_created, job_deleted}
use spot_instance_training_o.Cluster.Prog.{Prog, pure, branch, ◌>>=◌, ◌>>◌, ask, act}
use spot_instance_training_o.Cluster.Env.{Env}
use spot_instance_training_o.TrainingController.Names.{
  checkpoint_updated, spot_instance_job_label, job_replica_label, replica_of, replica_index,
  is_updated,
}
use spot_instance_training_o.TrainingController.Instances.{fresh_meta}
use spot_instance_training_o.TrainingController.Jobs.{is_ready}

-- A `map[string]interface{}`; the nil map of an entry that is not a map is empty.
abbrev pub Fields : Type 0
Fields = List (String × Value)

-- `parts[0]` of `strings.SplitN(s, "/", 2)`
unfoldable pub before_slash : String → String
before_slash String.[] = ""
before_slash (String.◌∷◌ c s) = if code c == b'/' then "" else String.◌∷◌ c (before_slash s)

-- Whether the first part of the repository looks like a registry.
unfoldable pub has_registry : String → Bool
unfolding before_slash contains
has_registry repo =
    let host = before_slash repo in
    contains repo "/"
    && (contains host "."
        || str_eq host "docker.io"
        || str_eq host "gcr.io"
        || str_eq host "ghcr.io"
        || str_eq host "quay.io")

-- That part, or else the registry of Docker.
unfoldable pub registry_url : String → String
unfolding has_registry
registry_url repo = if has_registry repo then before_slash repo else "docker.io"

as_text : Value → Option String
as_text (text s) = some s
as_text other = none

-- `c[k].(string)`
unfoldable pub text_field : String → Fields → Option String
unfolding as_text
text_field k [] = none
text_field k ((j, v) ∷ m) = if str_eq j k then as_text v else text_field k m

add_image : String → Option String → Option String → Labels → Labels
add_image registry (some name) (some image) m =
    set_label name (append registry (append "/" image)) m
add_image registry none image m = m
add_image registry (some name) none m = m

-- The images of a checkpoint, by the names of the containers; a later one replaces an earlier one.
unfoldable pub image_map : String → List Fields → Labels → Labels
unfolding text_field add_image set_label
image_map registry [] m = m
image_map registry (c ∷ cs) m =
    image_map registry cs (add_image registry (text_field "name" c) (text_field "image" c) m)

unfoldable pub with_image : Labels → Container → Container
unfolding label
with_image images c = elim (label c.name images) [ none ↦ c | some i ↦ record c { image = i } ]

-- The replica index of a job, 0 where none can be read.
abbrev pub index_of : Job → ℤ
index_of job = elim (replica_index job.meta.labels) [ none ↦ pos 0 | some i ↦ i ]

-- The pod template with the images; the labels are the operator's own only.
abbrev pub restored_template : SpotInstanceJob → ℤ → Labels → String → PodTemplate → PodTemplate
restored_template sj index images node old = record {
  labels =
      set_label job_replica_label (decimal_ℤ index)
        (set_label spot_instance_job_label sj.meta.name []);
  annotations = old.annotations;
  node_name = node;
  containers = map (with_image images) old.containers;
}

-- The job that replaces another: its name, its index, the images, the node.
unfoldable pub restored_job : SpotInstanceJob → String → Job → Labels → String → Job
restored_job sj name old images node =
    let index = index_of old in
    let meta = fresh_meta name sj.meta.namespace (replica_of sj (decimal_ℤ index)) in
    record {
      meta = record meta { annotations = (checkpoint_updated, "true") ∷ [] };
      spec = record old.spec {
        selector = none;
        template = restored_template sj index images node old.spec.template;
      };
      active = pos 0;
      succeeded = pos 0;
    }

abbrev pub waiting : ℤ → String → Error
waiting index what = new_error (
    append "waiting for ProvisionedInstance with replica index "
      (append (decimal_ℤ index) (append " to be " what)))

-- The node to bind the pod to: none where the instances cannot be listed, and an error where none of
-- them is ready.
unfoldable pub choose_node : ℤ → Result (List ProvisionedInstance) → Result String
choose_node index (err e) = ok ""
choose_node index (ok []) = err (waiting index "created")
choose_node index (ok (pi ∷ items)) = elim (find is_ready (pi ∷ items)) [
  | none ↦ err (waiting index "ready")
  | some ready ↦ ok ready.status.node_name
]

module _ {C S W : Type 0} (env : Env C S W) (sj : SpotInstanceJob) (name : String) where
  -- A job of that name that is there already is looked at, and what is found is only logged.
  unfoldable pub create_restored : Job → Prog W (Result (Unit {0}))
  create_restored job = elim (env.util.set_controller_reference sj.meta job.meta) [
    | err e ↦ pure (err (wrap "failed to set controller reference" e))
    | ok meta ↦ do
      let job' = record job { meta = meta }
      created ← act (env.client.create_job job') (job_created job')
      elim created [
        | ok _ ↦ pure (ok tt)
        | err e ↦
            branch (is_already_exists e)
              (do existing ← ask (env.client.get_job sj.meta.namespace name); pure (ok tt))
              (pure (err (wrap "failed to create updated job" e)))
      ]
  ]

  unfoldable pub replace_job : Labels → Job → Prog W (Result (Unit {0}))
  replace_job images job = do
    deleted ← act (env.client.delete_job job) (job_deleted job)
    elim deleted [
      | err e ↦ pure (err (wrap "failed to delete job" e))
      | ok _ ↦ do
        instances ←
            ask (
              env.client.list_instances sj.meta.namespace
                (replica_of sj (decimal_ℤ (index_of job))))
        elim (choose_node (index_of job) instances) [
          | err e ↦ pure (err e)
          | ok node ↦ create_restored (restored_job sj name job images node)
        ]
    ]

  unfoldable pub update_job_with_checkpoint : List Fields → Prog W (Result (Unit {0}))
  update_job_with_checkpoint containers = do
    found ← ask (env.client.get_job sj.meta.namespace name)
    elim found [
      | err e ↦ pure (if is_not_found e then ok tt else err e)
      | ok job ↦ branch (is_updated job) (pure (ok tt)) (
          replace_job
            (image_map (registry_url sj.spec.checkpoint_config.checkpoint_image_repo) containers [])
            job)
    ]
