-- ===== src/TrainingController/Instances.antt =====
-- spotinstancejob_provisionedinstance.go: a ProvisionedInstance for each replica.
pub mod Creates
pub mod Fresh
pub mod Endless
pub mod Taken
pub mod Scale
pub mod Adopted
use spot_instance_training_o.Base.{
  ℕ, zero, suc, ◌/◌, Bool, true, false, ◌||◌, ◌&&◌, not, String, append, Option, none, some, List,
  [], ◌∷◌, ℤ, pos, ltb_ℤ, add32, sub32, double32, to_int32, count, any, str_eq, decimal, decimal_ℤ,
}
use spot_instance_training_o.Api.Meta.{ObjectMeta, Labels, is_deleting}
use spot_instance_training_o.Api.Template.{InstanceTemplate}
use spot_instance_training_o.Api.Instance.{ProvisionedInstance}
use spot_instance_training_o.Api.Training.{SpotInstanceJob}
use spot_instance_training_o.Cluster.Errors.{Result, ok, err, second}
use spot_instance_training_o.Cluster.Events.{instance_created}
use spot_instance_training_o.Cluster.Prog.{Prog, pure, stuck, branch, ◌>>=◌, ask, act}
use spot_instance_training_o.Cluster.Env.{Env}
use spot_instance_training_o.TrainingController.Names.{
  owned_by, replica_of, desired_replicas, replica_index, is_preempted,
}
use spot_instance_training_o.TrainingController.Checkpoints.{has_pending_checkpoints}
use spot_instance_training_o.TrainingController.Indices.{take_index, skip_taken}

-- Counted as active: pending, provisioning or running, and not being deleted.
abbrev pub is_active : ProvisionedInstance → Bool
is_active pi =
    (str_eq pi.status.state ""
      || str_eq pi.status.state "PENDING"
      || str_eq pi.status.state "PROVISIONING"
      || str_eq pi.status.state "RUNNING")
    && not (is_deleting pi.meta)

abbrev pub is_terminated : ProvisionedInstance → Bool
is_terminated pi = str_eq pi.status.state "TERMINATED" && pi.status.preemption_notice

take_known : Option ℤ → List ℤ → List ℤ
take_known none m = m
take_known (some i) m = take_index i m

-- The indices of the instances that are not preempted.
taken_from : List ℤ → List ProvisionedInstance → List ℤ
unfolding take_known
taken_from m [] = m
taken_from m (pi ∷ items) =
    taken_from
      (elim (is_preempted pi) [ true ↦ m | false ↦ take_known (replica_index pi.meta.labels) m ])
      items

unfoldable pub taken_indices : List ProvisionedInstance → List ℤ
unfolding taken_from
taken_indices items = taken_from [] items

-- "{job}-{template}-{index}-{seconds}"
abbrev pub instance_name : SpotInstanceJob → InstanceTemplate → ℤ → ℕ → String
instance_name sj template index now = append sj.meta.name (
    append "-" (
      append template.meta.name
        (append "-" (append (decimal_ℤ index) (append "-" (decimal (now / second)))))))

-- Metadata with a name, a namespace and labels only.
abbrev pub fresh_meta : String → String → Labels → ObjectMeta
fresh_meta name namespace labels = record {
  name = name;
  namespace = namespace;
  uid = "";
  labels = labels;
  annotations = [];
  finalizers = [];
  owner_references = [];
  creation_timestamp = 0;
  deletion_timestamp = none;
}

unfoldable pub new_instance : SpotInstanceJob → InstanceTemplate → ℤ → ℕ → ProvisionedInstance
new_instance sj template index now = record {
  meta =
      fresh_meta (instance_name sj template index now) sj.meta.namespace
        (replica_of sj (decimal_ℤ index));
  spec = record {
    instance_template_name = template.meta.name;
    instance_template_namespace = template.meta.namespace;
    spot_instance_job_ref = none;
    gcp_credentials_secret_ref = sj.spec.gcp_credentials_secret_ref;
  };
  status = record {
    instance_id = "";
    instance_name = "";
    internal_ip = "";
    external_ip = "";
    state = "";
    node_name = "";
    joined_cluster = false;
    creation_time = none;
    preemption_notice = false;
  };
}

module _ {C S W : Type 0} (env : Env C S W) where
  module _ (sj : SpotInstanceJob) (template : InstanceTemplate) (desired needed : ℤ) where
    -- `for created < needed`. A create that fails moves on to the next index and counts nothing.
    unfoldable pub create_missing : ℕ → ℤ → ℤ → List ℤ → Prog W (Result (Unit {0}))
    create_missing zero index created taken = stuck
    create_missing (suc fuel) index created taken =
        branch (ltb_ℤ created needed)
          (elim (skip_taken (double32 desired) taken index) [
            | none ↦ stuck
            | some i ↦ do
              now ← ask env.client.now
              let pi = new_instance sj template i now
              elim (env.util.set_controller_reference sj.meta pi.meta) [
                | err e ↦ pure (err e)
                | ok meta ↦ do
                  made ←
                      act (env.client.create_instance (record pi { meta = meta }))
                        (instance_created (record pi { meta = meta }))
                  elim made [
                    | err e ↦ create_missing fuel (add32 i (pos 1)) created taken
                    | ok _ ↦
                        create_missing fuel (add32 i (pos 1)) (add32 created (pos 1))
                          (take_index i taken)
                  ]
              ]
          ])
          (pure (ok tt))

  -- Whether to hold back until a checkpoint is done; a failed look is ignored.
  unfoldable pub must_wait : SpotInstanceJob → Bool → Prog W Bool
  must_wait sj asked =
      branch asked
        (do found ← has_pending_checkpoints env sj; pure (elim found [ err e ↦ false | ok b ↦ b ]))
        (pure false)

  unfoldable pub reconcile_provisioned_instances :
      SpotInstanceJob → InstanceTemplate → Prog W (Result (Unit {0}))
  reconcile_provisioned_instances sj template = do
    listed ← ask (env.client.list_instances sj.meta.namespace (owned_by sj))
    elim listed [
      | err e ↦ pure (err e)
      | ok items ↦ do
        let desired = desired_replicas sj
        let active = to_int32 (count is_active items)
        wait ← must_wait sj (any is_terminated items && ltb_ℤ active desired)
        branch wait (pure (ok tt)) (
            branch (ltb_ℤ active desired)
              (create_missing sj template desired (sub32 desired active) env.patience (pos 0)
                (pos 0) (taken_indices items))
              (pure (ok tt)))
    ]
