-- ===== src/InstanceController/Creation.antt =====
-- `provisionInstance`: the VMs that are asked for.
use text.Mathlib.TextLemmas.{append-eq-nil_iff, append_assoc}
use spot_instance_training_o.Base.{
  ◌≡◌, refl, ap, ◌⊎◌, inl, inr, false, String, append, some, List, [], ◌∷◌, str_eq, starts_with,
  select, eq_iff, Bool-cases,
}
use spot_instance_training_o.Api.Template.{InstanceTemplate}
use spot_instance_training_o.Api.Instance.{ProvisionedInstance}
use spot_instance_training_o.Api.Compute.{Instance}
use spot_instance_training_o.Cluster.Errors.{ok, err}
use spot_instance_training_o.Cluster.Events.{Trace, vm_inserted}
use spot_instance_training_o.Cluster.Prog.{World, ◌>>=◌}
use spot_instance_training_o.Cluster.Env.{Env}
use spot_instance_training_o.Cluster.Hoare.{
  Yields, Triple, Ensures-pure, Ensures-act, Ensures-bind, Keeps-then, Keeps-ask, Keeps-pure,
  Triple-weaken,
}
use spot_instance_training_o.Gcp.Provisioner.{
  Provisioner, instance_config, list_instances_by_prefix, provision_spot_instance,
}
use spot_instance_training_o.Gcp.Waiting.{Settling, Waits, Waits-total}
use spot_instance_training_o.InstanceController.Fetch.{JoinInfo}
use spot_instance_training_o.InstanceController.Provision.{
  join_command, with_join_command, wants_preemptible, create_vm, adopt_or_create,
  provision_instance,
}
use spot_instance_training_o.InstanceController.Stable.{
  IsSteady, fetch_kubeadm_join_info-Keeps, update_instance_status-Keeps, record_provisioned-Keeps,
}

-- The VMs that were asked for, the latest first.
abbrev pub insertions : Trace → List Instance
insertions [] = []
insertions (vm_inserted project zone i answer ∷ t) = i ∷ insertions t
insertions (e ∷ t) = insertions t

module _ {C S W : Type 0} (env : Env C S W) (pi : ProvisionedInstance) (template : InstanceTemplate)
    (old : List Instance) where
  -- The VM that is asked for with the given join information.
  abbrev pub wanted : JoinInfo → Instance
  wanted info =
      let spec = with_join_command info template.spec in
      instance_config env.cloud.cloud_platform_scope spec pi.meta.name (wants_preemptible spec)

  -- Nothing was asked for, or one VM.
  abbrev pub AtMostOne : Trace → Type 0
  AtMostOne t = (insertions t ≡ old) ⊎ ((info : JoinInfo) × (insertions t ≡ wanted info ∷ old))

  AtMostOne-IsSteady : IsSteady AtMostOne
  AtMostOne-IsSteady = record {
    quiet = record { node = λ n answer t h. h };
    status = λ o answer t noticed h. h;
  }

  abbrev pub OnlyIfMissing : List Instance → Trace → Type 0
  OnlyIfMissing found t =
      (insertions t ≡ old)
      ⊎ ((found ≡ []) × ((info : JoinInfo) × (insertions t ≡ wanted info ∷ old)))

  missing : (t : Trace) → AtMostOne t → OnlyIfMissing [] t
  missing t (inl same) = inl same
  missing t (inr one) = inr (refl, one)

  module _ {Z : Type 0} (waits : Waits Z env.cloud env.patience) where
    provision_spot_instance-AtMostOne :
        (p : Provisioner S) (info : JoinInfo)
        → let spec = with_join_command info template.spec in
          Triple Z
            (λ t. insertions t ≡ old)
            (provision_spot_instance env.cloud env.patience p spec pi.meta.name
              (wants_preemptible spec))
            (λ _. AtMostOne)
    unfolding provision_spot_instance
    provision_spot_instance-AtMostOne p info =
        Ensures-bind {Q = λ _. AtMostOne}
          (Ensures-act _ _ (λ a t h. inr (info, ap (λ v. wanted info ∷ v) h)))
          elim [
            | err e ↦ Keeps-pure _
            | ok op ↦
                Keeps-then (waits.keeps _ p op _) elim [
                  | err e ↦ Keeps-pure _
                  | ok _ ↦ Keeps-then (Keeps-ask _) (λ _. Keeps-pure _)
                ]
          ]

    create_vm-AtMostOne :
        (p : Provisioner S)
        → Triple Z (λ t. insertions t ≡ old) (create_vm env pi template p) (λ _. AtMostOne)
    unfolding create_vm
    create_vm-AtMostOne p = Keeps-then (fetch_kubeadm_join_info-Keeps env.client _ _) elim [
      | err e ↦ Ensures-pure _ (λ t h. inl h)
      | ok info ↦ Ensures-bind (provision_spot_instance-AtMostOne p info) elim [
        | err e ↦ Keeps-pure _
        | ok i ↦ record_provisioned-Keeps env AtMostOne-IsSteady pi i
      ]
    ]

    adopt_or_create-OnlyIfMissing :
        (p : Provisioner S) (found : List Instance)
        → Triple Z
            (λ t. insertions t ≡ old)
            (adopt_or_create env pi template p found)
            (λ _. OnlyIfMissing found)
    unfolding adopt_or_create
    adopt_or_create-OnlyIfMissing p [] = Triple-weaken (λ a t. missing t) (create_vm-AtMostOne p)
    adopt_or_create-OnlyIfMissing p (i ∷ is) =
        Triple-weaken (λ a t h. inl h) (update_instance_status-Keeps env.client unchanged pi i)
      where
        unchanged : IsSteady (λ t. insertions t ≡ old)
        unchanged = record {
          quiet = record { node = λ n answer t h. h };
          status = λ o answer t noticed h. h;
        }

-- If the zone operations settle, one call returns, and it asks Compute Engine for at most one VM. It
-- asks only if no VM of the zone has a name that begins with the object's, and the VM that it asks for
-- has the object's name and the template's specification with the join command. The list is the zone's
-- at the start of the call.
pub provision_instance-OnlyIfMissing :
    {C S W : Type 0} (env : Env C S W) (pi : ProvisionedInstance) (template : InstanceTemplate)
    (p : Provisioner S) (w : World W) (items : List Instance) (s : W)
    → Settling env.cloud env.patience
    → env.cloud.list_instances p.compute_service p.project template.spec.gcp.zone w.state
      ≡ (ok items, s)
    → Yields (provision_instance env pi template p w) (λ _.
      OnlyIfMissing env pi template
        (insertions w.trace)
        (select (λ i. starts_with i.name pi.meta.name) items))
unfolding provision_instance list_instances_by_prefix ◌>>=◌
provision_instance-OnlyIfMissing env pi template p w items s settling h =
    let found = select (λ i. starts_with i.name pi.meta.name) items in
    let waits = Waits-total env.cloud env.patience settling in
    rw h (
      (adopt_or_create-OnlyIfMissing env pi template (insertions w.trace) waits p found).at
        (record w { state = s }) refl)

nonempty-append : (s t : String) → str_eq s "" ≡ false → str_eq (append s t) "" ≡ false
nonempty-append s t h = elim (Bool-cases (str_eq (append s t) "")) [
  | inl e ↦ cc ((eq_iff s "").1 (append-eq-nil_iff.0 ((eq_iff (append s t) "").0 e)).0)
  | inr e ↦ e
]

-- The VM that is asked for runs, at its start, a script whose last command joins it to the cluster
-- with the given information; a script of the template's own comes before that command.
pub wanted-joins :
    {C S W : Type 0} (env : Env C S W) (pi : ProvisionedInstance) (template : InstanceTemplate)
    (old : List Instance) (info : JoinInfo)
    → (head : String) × ((wanted env pi template old info).metadata
        ≡ some (record { key = "startup-script"; value = append head (join_command info) } ∷ []))
      × (str_eq template.spec.startup_script "" ≡ false
          → head ≡ append template.spec.startup_script "\n")
unfolding instance_config with_join_command
wanted-joins env pi template old info = elim (Bool-cases (str_eq template.spec.startup_script "")) [
  | inl none_given ↦ (
    "#!/bin/bash\n",
    rw (none_given, nonempty-append "#!/bin/bash\n" (join_command info) refl),
    λ given. cc,
  )
  | inr given ↦ (
    append template.spec.startup_script "\n",
    rw (
      given,
      append_assoc,
      nonempty-append template.spec.startup_script (append "\n" (join_command info)) given,
    ),
    λ _. refl,
  )
]
