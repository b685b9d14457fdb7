-- ===== src/Gcp/Provisioner.antt =====
-- internal/gcp/provisioner.go: creating, reading, listing and deleting spot instances.
use spot_instance_training_o.Base.{
  ℕ, zero, suc, Bool, true, false, String, append, Option, none, some, List, [], ◌∷◌, ◌||◌, str_eq,
  starts_with, select, if◌then◌else◌,
}
use spot_instance_training_o.Api.Template.{InstanceTemplateSpec, GpuConfig}
use spot_instance_training_o.Api.Compute.{
  Scheduling, AcceleratorConfig, MetadataItem, ServiceAccount, Instance, Operation,
}
use spot_instance_training_o.Cluster.Errors.{Result, ok, err, wrap, new_error}
use spot_instance_training_o.Cluster.Events.{vm_inserted, vm_deleted, deletion_ended}
use spot_instance_training_o.Cluster.Prog.{Prog, pure, stuck, branch, ◌>>=◌, ◌>>◌, ask, act}
use spot_instance_training_o.Cluster.Cloud.{Cloud}

pub record Provisioner (S : Type 0) : Type 0 where
  pub compute_service : S
  pub project : String

-- "zones/{zone}/{kind}/{name}"
abbrev pub zone_path : String → String → String → String
zone_path zone kind name =
    append "zones/" (append zone (append "/" (append kind (append "/" name))))

abbrev pub is_preemptible : Option Scheduling → Bool
is_preemptible none = false
is_preemptible (some s) = s.preemptible

-- `instance.Status == "STOPPING" || instance.Status == "TERMINATED"`
abbrev pub is_ending : String → Bool
is_ending status = str_eq status "STOPPING" || str_eq status "TERMINATED"

accelerators : String → Option GpuConfig → List AcceleratorConfig
accelerators zone none = []
accelerators zone (some gpu) =
    record {
      accelerator_count = gpu.count;
      accelerator_type = zone_path zone "acceleratorTypes" gpu.type;
    }
    ∷ []

script_metadata : String → Option (List MetadataItem)
script_metadata script =
    if str_eq script "" then none else some (record { key = "startup-script"; value = script } ∷ [])

network_tags : List String → Option (List String)
network_tags [] = none
network_tags (t ∷ ts) = some (t ∷ ts)

service_accounts : String → String → List ServiceAccount
service_accounts scope email =
    if str_eq email "" then [] else record { email = email; scopes = scope ∷ [] } ∷ []

-- The instance that `ProvisionSpotInstance` asks for. `scope` is `compute.CloudPlatformScope`.
unfoldable pub instance_config : String → InstanceTemplateSpec → String → Bool → Instance
unfolding accelerators script_metadata network_tags service_accounts
instance_config scope template name preemptible = record {
  id = 0;
  name = name;
  status = "";
  machine_type = zone_path template.gcp.zone "machineTypes" template.gcp.machine_type;
  scheduling = some (record {
    preemptible = preemptible;
    automatic_restart = some false;
    on_host_maintenance = "TERMINATE";
  });
  disks =
      record {
        boot = true;
        auto_delete = true;
        source_image = template.vm_image;
        disk_size_gb = template.gcp.disk_size_gb;
        disk_type = zone_path template.gcp.zone "diskTypes" template.gcp.disk_type;
      }
      ∷ [];
  network_interfaces =
      record {
        network_ip = "";
        access_configs =
            record { name = "External NAT"; type = "ONE_TO_ONE_NAT"; nat_ip = "" } ∷ [];
      }
      ∷ [];
  guest_accelerators = accelerators template.gcp.zone template.gpu;
  metadata = script_metadata template.startup_script;
  tags = network_tags template.gcp.network_tags;
  service_accounts = service_accounts scope template.gcp.service_account;
}

-- What a finished operation means: its error, or success.
unfoldable pub operation_result : Operation → Result (Unit {0})
operation_result op = elim op.error [
  | none ↦ ok tt
  | some e ↦ err (new_error (append "operation failed: " e))
]

-- `"prefix: %w"` around the error of a call.
unfoldable pub wrap_error : {A : Type 0} → String → Result A → Result A
wrap_error prefix (ok a) = ok a
wrap_error prefix (err e) = err (wrap prefix e)

module _ {C S W : Type 0} (cloud : Cloud C S W) where
  unfoldable pub new_provisioner : String → String → Prog W (Result (Provisioner S))
  new_provisioner json project = do
    creds ← ask (cloud.credentials_from_json json)
    elim creds [
      | err e ↦ pure (err (wrap "failed to create credentials" e))
      | ok c ↦ do
        service ← ask (cloud.new_service c)
        elim service [
          | err e ↦ pure (err (wrap "failed to create compute service" e))
          | ok s ↦ pure (ok (record { compute_service = s; project = project }))
        ]
    ]

  -- One round takes one unit of fuel: the timer or the context, then the operation's status.
  unfoldable pub wait_for_operation :
      ℕ → Provisioner S → Operation → String → Prog W (Result (Unit {0}))
  unfolding operation_result
  wait_for_operation zero p op zone = stuck
  wait_for_operation (suc fuel) p op zone = do
    tick ← ask cloud.wait_tick
    elim tick [
      | some e ↦ pure (err e)
      | none ↦ do
        status ← ask (cloud.get_operation p.compute_service p.project zone op.name)
        elim status [
          | err e ↦ pure (err (wrap "failed to get operation status" e))
          | ok result ↦
              branch (str_eq result.status "DONE") (pure (operation_result result))
                (wait_for_operation fuel p op zone)
        ]
    ]

  -- `GetInstance`
  unfoldable pub get_instance : Provisioner S → String → String → Prog W (Result Instance)
  unfolding wrap_error
  get_instance p zone name = do
    found ← ask (cloud.get_instance p.compute_service p.project zone name)
    pure (wrap_error "failed to get instance" found)

  unfoldable pub provision_spot_instance :
      ℕ → Provisioner S → InstanceTemplateSpec → String → Bool → Prog W (Result Instance)
  unfolding wrap_error
  provision_spot_instance fuel p template name preemptible = do
    let zone = template.gcp.zone
    let config = instance_config cloud.cloud_platform_scope template name preemptible
    inserted ←
        act (cloud.insert_instance p.compute_service p.project zone config)
          (vm_inserted p.project zone config)
    elim inserted [
      | err e ↦ pure (err (wrap "failed to insert instance" e))
      | ok op ↦ do
        waited ← wait_for_operation fuel p op zone
        elim waited [
          | err e ↦ pure (err (wrap "failed to wait for operation" e))
          | ok _ ↦ do
            created ← ask (cloud.get_instance p.compute_service p.project zone name)
            pure (wrap_error "failed to get instance" created)
        ]
    ]

  unfoldable pub delete_spot_instance :
      ℕ → Provisioner S → String → String → Prog W (Result (Unit {0}))
  delete_spot_instance fuel p zone name = do
    deleted ←
        act (cloud.delete_instance p.compute_service p.project zone name)
          (vm_deleted p.project zone name)
    elim deleted [
      | err e ↦ pure (err (wrap "failed to delete instance" e))
      | ok op ↦ wait_for_operation fuel p op zone
    ]

  -- `instance.Name[:len(prefix)] == prefix`
  unfoldable pub list_instances_by_prefix :
      Provisioner S → String → String → Prog W (Result (List Instance))
  list_instances_by_prefix p zone prefix = do
    listed ← ask (cloud.list_instances p.compute_service p.project zone)
    elim listed [
      | err e ↦ pure (err (wrap "failed to list instances" e))
      | ok items ↦ pure (ok (select (λ i. starts_with i.name prefix) items))
    ]

  unfoldable pub check_preemption : Provisioner S → String → String → Prog W (Result Bool)
  check_preemption p zone name = do
    found ← get_instance p zone name
    elim found [
      | err e ↦ pure (err e)
      | ok i ↦ pure (ok (if is_ending i.status then is_preemptible i.scheduling else false))
    ]

  -- The project is an argument here; the wait uses the provisioner's.
  unfoldable pub delete_instance :
      ℕ → Provisioner S → String → String → String → Prog W (Result (Unit {0}))
  unfolding wrap_error
  delete_instance fuel p project zone name = do
    deleted ←
        act (cloud.delete_instance p.compute_service project zone name)
          (vm_deleted project zone name)
    elim deleted [
      | err e ↦ pure (err (wrap "failed to delete instance" e))
      | ok op ↦ do
        waited ← wait_for_operation fuel p op zone
        act (λ s. (tt, s)) (λ _. deletion_ended project zone name waited)
        pure (wrap_error "failed to wait for delete operation" waited)
    ]
