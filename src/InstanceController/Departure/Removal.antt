-- ===== src/InstanceController/Departure/Removal.antt =====
-- The deletion of a VM where nothing is refused: it succeeds.
use spot_instance_training_o.Base.{ℕ, zero, suc, ◌≡◌, refl, String, none, some}
use spot_instance_training_o.Api.Meta.{label}
use spot_instance_training_o.Api.Template.{InstanceTemplate}
use spot_instance_training_o.Api.Instance.{ProvisionedInstance}
use spot_instance_training_o.Api.Kube.{Secret}
use spot_instance_training_o.Api.Compute.{Operation}
use spot_instance_training_o.Cluster.Errors.{Result, ok, err}
use spot_instance_training_o.Cluster.Events.{Trace}
use spot_instance_training_o.Cluster.Env.{Env}
use spot_instance_training_o.Cluster.Hoare.{
  Triple, Delivers, Ensures-pure, Ensures-act_of, Ensures-ask_of, Ensures-bind, Ensures-branch,
  Ensures-stuck, Triple-before, Triple-then, Triple-answers, Triple-ended,
}
use spot_instance_training_o.Gcp.Provisioner.{
  Provisioner, wait_for_operation, new_provisioner, delete_instance,
}
use spot_instance_training_o.Gcp.Waiting.{Settling, Waits-total}
use spot_instance_training_o.InstanceController.Fetch.{
  template_namespace, fetch_instance_template, fetch_gcp_credentials,
}
use spot_instance_training_o.InstanceController.Deletion.{delete_gcp_instance, release_vm}

-- Nothing of what the deletion of the object calls is refused.
pub record Accepts {C S W : Type 0} (env : Env C S W) (pi : ProvisionedInstance) : Type 0 where
  pub template : InstanceTemplate
  pub secret : Secret
  pub json : String
  pub creds : C
  pub service : S
  pub deletion : Operation
  pub reads_template :
      (s : W)
      → (env.client.get_template (template_namespace pi) pi.spec.instance_template_name s).0
        ≡ ok template
  pub reads_secret :
      (s : W)
      → (env.client.get_secret pi.spec.gcp_credentials_secret_ref.namespace
          pi.spec.gcp_credentials_secret_ref.name s).0
        ≡ ok secret
  pub has_json : label "credentials.json" secret.data_entries ≡ some json
  pub makes_creds : (s : W) → (env.cloud.credentials_from_json json s).0 ≡ ok creds
  pub makes_service : (s : W) → (env.cloud.new_service creds s).0 ≡ ok service
  pub deletes :
      (s : W)
      → (env.cloud.delete_instance service template.spec.gcp.project template.spec.gcp.zone
          pi.status.instance_name s).0
        ≡ ok deletion
  pub goes_on : (s : W) → (env.cloud.wait_tick s).0 ≡ none
  pub looks :
      (s : W)
      → (result : Operation) × ((env.cloud.get_operation service template.spec.gcp.project
            template.spec.gcp.zone deletion.name s).0
          ≡ ok result)
        × (result.error ≡ none)
  pub updates : (o : ProvisionedInstance) (s : W) → (env.client.update_instance o s).0 ≡ ok o

module _ {C S W : Type 0} (env : Env C S W) (pi : ProvisionedInstance)
    (accepts : Accepts env pi) where
  abbrev provisioner_of : Provisioner S
  provisioner_of = record {
    compute_service = accepts.service;
    project = accepts.template.spec.gcp.project;
  }

  abbrev Looked : Result Operation → Type 0
  Looked (err e) = ⊥
  Looked (ok result) = result.error ≡ none

  looks-Looked :
      (r : Result Operation) (result : Operation) → r ≡ ok result → result.error ≡ none → Looked r
  looks-Looked r result e h = rw e h

  wait-Succeeds :
      (P : Trace → Type 0) (fuel : ℕ)
      → Triple
          (Unit {0})
          P
          (wait_for_operation env.cloud fuel provisioner_of accepts.deletion
            accepts.template.spec.gcp.zone)
          (λ r t. r ≡ ok tt)
  unfolding wait_for_operation
  wait-Succeeds P zero = Ensures-stuck
  wait-Succeeds P (suc fuel) =
      Ensures-bind {Q = λ a t. (a ≡ none) × P t}
        (Ensures-ask_of (λ a. a ≡ none) _ accepts.goes_on (λ a t h p. (h, p)))
        elim [
          | some e ↦ Ensures-pure _ (λ t h. absurd (cc (h.0)))
          | none ↦
              Ensures-bind {Q = λ a t. Looked a × P t}
                (Ensures-ask_of Looked _
                  (λ s.
                    let (result, seen, fine) = accepts.looks s in looks-Looked _ result seen fine)
                  (λ a t h p. (h, p.1)))
                elim [
                  | err e ↦ Ensures-pure _ (λ t h. absurd (h.0))
                  | ok result ↦
                      Ensures-branch (λ done. Ensures-pure _ (λ t h. rw (h.0) refl))
                        (λ not_yet. Triple-before (λ t h. h.1) (wait-Succeeds P fuel))
                ]
        ]

  module _ (settling : Settling env.cloud env.patience) where
    waits_well :
        Delivers
          (λ t. Unit)
          (wait_for_operation env.cloud env.patience provisioner_of accepts.deletion
            accepts.template.spec.gcp.zone)
          (λ r t. r ≡ ok tt)
    waits_well =
        Triple-ended
          ((Waits-total env.cloud env.patience settling).keeps (λ t. Unit) provisioner_of
            accepts.deletion accepts.template.spec.gcp.zone)
          (wait-Succeeds (λ t. Unit) env.patience)

    reads_credentials :
        Delivers
          (λ t. Unit)
          (fetch_gcp_credentials env.client pi.spec.gcp_credentials_secret_ref)
          (λ r t. r ≡ ok accepts.json)
    unfolding fetch_gcp_credentials
    reads_credentials =
        Triple-then (ok accepts.secret) _ (Triple-answers _ _ accepts.reads_secret)
          (Ensures-pure _ (λ t p. cc (accepts.has_json)))

    makes_provisioner :
        Delivers
          (λ t. Unit)
          (new_provisioner env.cloud accepts.json accepts.template.spec.gcp.project)
          (λ r t. r ≡ ok provisioner_of)
    unfolding new_provisioner
    makes_provisioner = Triple-then (ok accepts.creds) _ (Triple-answers _ _ accepts.makes_creds) (
        Triple-then (ok accepts.service) _ (Triple-answers _ _ accepts.makes_service)
          (Ensures-pure _ (λ t p. refl)))

    delete_instance-Succeeds :
        Delivers
          (λ t. Unit)
          (delete_instance env.cloud env.patience provisioner_of accepts.template.spec.gcp.project
            accepts.template.spec.gcp.zone pi.status.instance_name)
          (λ r t. r ≡ ok tt)
    unfolding delete_instance
    delete_instance-Succeeds =
        Triple-then (ok accepts.deletion) _
          (Ensures-act_of (λ a. a ≡ ok accepts.deletion) _ _ accepts.deletes (λ a t e p. e))
          (Triple-then (ok tt) _ waits_well (
            Triple-then tt _ (Ensures-act_of (λ a. a ≡ tt) _ _ (λ s. refl) (λ a t e p. e))
              (Ensures-pure _ (λ t p. refl))))

    delete_gcp_instance-Succeeds :
        Delivers (λ t. Unit) (delete_gcp_instance env pi) (λ r t. r ≡ ok tt)
    unfolding delete_gcp_instance fetch_instance_template
    delete_gcp_instance-Succeeds =
        Triple-then (ok accepts.template) _ (Triple-answers _ _ accepts.reads_template) (
          Triple-then (ok accepts.json) _ reads_credentials (
            Triple-then (ok provisioner_of) _ makes_provisioner
              (Triple-then (ok tt) _ delete_instance-Succeeds (Ensures-pure _ (λ t p. refl)))))

    pub release_vm-Succeeds : Delivers (λ t. Unit) (release_vm env pi) (λ r t. r ≡ ok tt)
    unfolding release_vm
    release_vm-Succeeds =
        Ensures-branch (λ _. Ensures-pure _ (λ t p. refl)) (λ _. delete_gcp_instance-Succeeds)
