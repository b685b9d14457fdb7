-- ===== src/Tests/Clouds.antt =====
-- Surroundings whose answers do not change: what the reads answer is given, each write but the
-- creation of objects is accepted, and each cloud operation is done at the first look.
use spot_instance_training_o.Base.{
  ◌≡◌, refl, ap, sym, false, String, none, List, [], ◌∷◌, str_eq, any, not, select, eq_refl, arith,
  All, or-true, true,
}
use spot_instance_training_o.Api.Instance.{ProvisionedInstance}
use spot_instance_training_o.Api.Compute.{Instance, Operation}
use spot_instance_training_o.Cluster.Errors.{Error, Result, ok, err, new_error, not_found}
use spot_instance_training_o.Cluster.Prog.{World}
use spot_instance_training_o.Cluster.Client.{Client, Util, FinalizerLaws}
use spot_instance_training_o.Cluster.Cloud.{Cloud}
use spot_instance_training_o.Cluster.Env.{Env}
use spot_instance_training_o.Gcp.Provisioner.{Provisioner}
use spot_instance_training_o.Gcp.Waiting.{Settling}
use spot_instance_training_o.InstanceController.Guard.{Places, NamespaceLaw, TemplateLaw}
use spot_instance_training_o.TrainingController.Jobs.Attempts.{OwnerLaw}
use spot_instance_training_o.TrainingController.Names.{is_in}
use spot_instance_training_o.TrainingController.Completed.Kept.{RangeLaw, All-map}
use spot_instance_training_o.Tests.Objects.{template, training, secret, node}

abbrev pub nothing : Error
nothing = record { reason = not_found; message = "not found" }

abbrev pub client_of :
    {W : Type 0}
    → ProvisionedInstance
    → List ProvisionedInstance
    → (ProvisionedInstance → Result ProvisionedInstance)
    → Client W
client_of pi listed create = record {
  get_template = λ namespace name s. (ok template, s);
  get_secret = λ namespace name s. (ok secret, s);
  get_node = λ name s. (ok node, s);
  delete_node = λ n s. (ok tt, s);
  get_instance = λ namespace name s. (ok pi, s);
  list_instances = λ namespace labels s. (ok listed, s);
  create_instance = λ o s. (create o, s);
  update_instance = λ o s. (ok o, s);
  update_instance_status = λ o s. (ok o, s);
  delete_instance = λ o s. (ok tt, s);
  get_training = λ namespace name s. (ok training, s);
  update_training = λ o s. (ok o, s);
  update_training_status = λ o s. (ok o, s);
  get_job = λ namespace name s. (err nothing, s);
  list_jobs = λ namespace labels s. (ok [], s);
  create_job = λ o s. (ok o, s);
  delete_job = λ o s. (ok tt, s);
  list_pods = λ namespace labels s. (ok [], s);
  list_checkpoints = λ namespace labels s. (ok [], s);
  create_checkpoint = λ o s. (ok tt, s);
  delete_checkpoint = λ o s. (ok tt, s);
  now = λ s. (1_700_000_000_000_000_000, s);
  timed_out = λ s. (false, s);
}

abbrev pub util : Util
util = record {
  contains_finalizer = λ m f. any (λ g. str_eq g f) m.finalizers;
  add_finalizer = λ m f. record m { finalizers = f ∷ m.finalizers };
  remove_finalizer = λ m f. record m { finalizers = select (λ g. not (str_eq g f)) m.finalizers };
  set_controller_reference = λ owner m. ok m;
  parse_time = λ s. none;
}

none_left :
    (f : String) (l : List String)
    → any (λ g. str_eq g f) (select (λ g. not (str_eq g f)) l) ≡ false
none_left f [] = refl
none_left f (g ∷ l) = ground (arith, none_left f l)

pub util-FinalizerLaws : FinalizerLaws util
util-FinalizerLaws = record {
  added = λ m f. rw (eq_refl f) refl;
  removed = λ m f. none_left f m.finalizers;
}

pub util-NamespaceLaw : NamespaceLaw util
util-NamespaceLaw = record { kept = λ m f. refl }

-- Each template is the one of the tests.
abbrev pub one_place : Places
one_place namespace name = record {
  project = template.spec.gcp.project;
  zone = template.spec.gcp.zone;
}

pub env_of-TemplateLaw :
    {W : Type 0} (pi : ProvisionedInstance) (objects : List ProvisionedInstance)
    (create : ProvisionedInstance → Result ProvisionedInstance)
    → TemplateLaw {W = W} (client_of pi objects create) one_place
env_of-TemplateLaw pi objects create = record {
  place = λ namespace name s t h.
      let e : template ≡ t = cc h in
      ap (λ v. record { project = v.spec.gcp.project; zone = v.spec.gcp.zone }) (sym e);
}

pub util-OwnerLaw : OwnerLaw util
util-OwnerLaw = record {
  name = λ owner m m' h. cc;
  labels = λ owner m m' h. cc;
  annotations = λ owner m m' h. cc;
}

abbrev pub done : Operation
done = record { name = "op"; status = "DONE"; error = none }

abbrev pub cloud_of : {W : Type 0} → List Instance → Result Instance → Cloud (Unit {0}) (Unit {0}) W
cloud_of listed found = record {
  credentials_from_json = λ json s. (ok tt, s);
  new_service = λ c s. (ok tt, s);
  insert_instance = λ c project zone i s. (ok done, s);
  get_instance = λ c project zone name s. (found, s);
  delete_instance = λ c project zone name s. (ok done, s);
  list_instances = λ c project zone s. (ok listed, s);
  get_operation = λ c project zone name s. (ok done, s);
  wait_tick = λ s. (none, s);
  cloud_platform_scope = "https://www.googleapis.com/auth/cloud-platform";
}

-- The object that is read, those that are listed, the VMs that are listed, the VM that is read, and
-- what a creation answers.
abbrev pub env_of :
    {W : Type 0}
    → ProvisionedInstance
    → List ProvisionedInstance
    → List Instance
    → Result Instance
    → (ProvisionedInstance → Result ProvisionedInstance)
    → Env (Unit {0}) (Unit {0}) W
env_of pi objects vms vm create = record {
  client = client_of pi objects create;
  util = util;
  cloud = cloud_of vms vm;
  patience = 10;
}

-- Each operation is done at the first look.
pub cloud_of-Settling :
    {W : Type 0} (vms : List Instance) (vm : Result Instance)
    → Settling {W = W} (cloud_of vms vm) 10
cloud_of-Settling vms vm = record {
  left = λ s. 0;
  within = λ s. omega arith;
  falls = λ service project zone name s result goes_on looked not_yet. cc;
}

abbrev pub accepting : ProvisionedInstance → Result ProvisionedInstance
accepting = ok

abbrev pub refusing : ProvisionedInstance → Result ProvisionedInstance
refusing o = err (new_error "exceeded quota")

abbrev pub start : World (Unit {0})
start = record { state = tt; trace = [] }

abbrev pub provisioner : Provisioner (Unit {0})
provisioner = record { compute_service = tt; project = "lab" }

-- A map is ranged over in the order of its list.
abbrev pub in_order : {W : Type 0} → List String → W → List String × W
in_order l s = (l, s)

All-is_in : (l : List String) → All (λ n. is_in l n ≡ true) l
All-is_in [] = tt
All-is_in (n ∷ l) = (
  rw (eq_refl n) refl,
  All-map (λ m. is_in l m ≡ true) (λ m. is_in (n ∷ l) m ≡ true) l (λ m h. rw h (or-true _))
      (All-is_in l),
)

pub in_order-RangeLaw : {W : Type 0} → RangeLaw {W = W} in_order
in_order-RangeLaw = record { names = λ l s. All-is_in l }
