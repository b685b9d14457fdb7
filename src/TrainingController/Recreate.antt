-- ===== src/TrainingController/Recreate.antt =====
-- spotinstancejob_job.go, `recreateJobWithCheckpoint`: a job under a new name, from the template, with
-- the images of a checkpoint. Nothing calls it.
use spot_instance_training_o.Base.{ℕ, ◌/◌, String, append, List, [], ◌∷◌, map, pos, decimal}
use spot_instance_training_o.Api.Meta.{Labels, set_label}
use spot_instance_training_o.Api.Training.{SpotInstanceJob}
use spot_instance_training_o.Api.Kube.{Job, PodTemplate}
use spot_instance_training_o.Base.{Option, none, some}
use spot_instance_training_o.Cluster.Errors.{Result, ok, err, second}
use spot_instance_training_o.Cluster.Events.{job_created}
use spot_instance_training_o.Cluster.Prog.{Prog, pure, ◌>>=◌, ask, act}
use spot_instance_training_o.Cluster.Env.{Env}
use spot_instance_training_o.TrainingController.Names.{spot_instance_job_label}
use spot_instance_training_o.TrainingController.Instances.{fresh_meta}
use spot_instance_training_o.TrainingController.Restore.{Fields, text_field, with_image}

add_plain_image : Option String → Option String → Labels → Labels
add_plain_image (some name) (some image) m = set_label name image m
add_plain_image none image m = m
add_plain_image (some name) none m = m

-- The images by the names of the containers, without a registry.
unfoldable pub plain_image_map : List Fields → Labels → Labels
unfolding text_field add_plain_image
plain_image_map [] m = m
plain_image_map (c ∷ cs) m =
    plain_image_map cs (add_plain_image (text_field "name" c) (text_field "image" c) m)

-- "{job}-restored-{seconds}"
abbrev pub restored_name : String → ℕ → String
restored_name name seconds = append name (append "-restored-" (decimal seconds))

-- The template with the label of the training job and the images.
abbrev pub recreated_template : SpotInstanceJob → List Fields → PodTemplate → PodTemplate
recreated_template sj containers template = record template {
  labels = set_label spot_instance_job_label sj.meta.name template.labels;
  containers = map (with_image (plain_image_map containers [])) template.containers;
}

unfoldable pub recreated_job : SpotInstanceJob → String → List Fields → ℕ → Job
recreated_job sj old containers seconds = record {
  meta =
      fresh_meta (restored_name old seconds) sj.meta.namespace
        ((spot_instance_job_label, sj.meta.name) ∷ ("restored-from", old) ∷ []);
  spec = record sj.spec.job_template {
    template = recreated_template sj containers sj.spec.job_template.template;
  };
  active = pos 0;
  succeeded = pos 0;
}

module _ {C S W : Type 0} (env : Env C S W) where
  unfoldable pub recreate_job_with_checkpoint :
      SpotInstanceJob → String → List Fields → Prog W (Result (Unit {0}))
  recreate_job_with_checkpoint sj old containers = do
    now ← ask env.client.now
    let job = recreated_job sj old containers (now / second)
    elim (env.util.set_controller_reference sj.meta job.meta) [
      | err e ↦ pure (err e)
      | ok meta ↦ do
        created ←
            act (env.client.create_job (record job { meta = meta }))
              (job_created (record job { meta = meta }))
        pure (elim created [ err e ↦ err e | ok _ ↦ ok tt ])
    ]
