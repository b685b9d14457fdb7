-- ===== src/Tests/Stores.antt =====
-- An API server that keeps the instances that are created, as a list.
use spot_instance_training_o.Base.{◌≡◌, refl, some, none, List, [], ◌∷◌, arith}
use spot_instance_training_o.Api.Meta.{label}
use spot_instance_training_o.Api.Instance.{ProvisionedInstance}
use spot_instance_training_o.Cluster.Errors.{ok}
use spot_instance_training_o.Cluster.Prog.{World}
use spot_instance_training_o.Cluster.Env.{Env}
use spot_instance_training_o.TrainingController.Names.{replica_of}
use spot_instance_training_o.TrainingController.Instances.{reconcile_provisioned_instances}
use spot_instance_training_o.TrainingController.Instances.Scale.{Store, listed_in, active_of}
use spot_instance_training_o.TrainingController.Instances.Scale.Settles.{
  reconcile_provisioned_instances-Scales,
}
use spot_instance_training_o.Tests.Objects.{instance_of, vm_of, training, template}
use spot_instance_training_o.Tests.Clouds.{env_of, accepting}

abbrev running : ProvisionedInstance
running = instance_of "bert-gpu-0-1" "vm-0" "RUNNING" (replica_of training "0") none

abbrev Kept : Type 0
Kept = List ProvisionedInstance

abbrev plain_env : Env (Unit {0}) (Unit {0}) Kept
plain_env = env_of running [] [] (ok (vm_of "vm-0" "RUNNING")) accepting

abbrev keeping_env : Env (Unit {0}) (Unit {0}) Kept
keeping_env = record plain_env {
  client = record plain_env.client {
    list_instances = λ namespace selector s. (ok (listed_in namespace selector s), s);
    create_instance = λ pi s. (ok pi, pi ∷ s);
  };
}

keeping_env-Store : Store keeping_env
keeping_env-Store = record {
  stored = λ s. s;
  lists = λ namespace selector s. refl;
  creates = λ pi s. (
    pi,
    pi ∷ s,
    refl,
    refl,
    record { namespace = refl; labels = refl; deletion = refl; status = refl },
  );
  tells_time = λ s. refl;
  owns = λ owner m. (m, refl, refl, refl, refl);
}

abbrev one_runs : World Kept
one_runs = record { state = running ∷ []; trace = [] }

-- One instance runs and three are wanted.
reconcile_provisioned_instances-Scales_example :
    (w' : World Kept) × (reconcile_provisioned_instances keeping_env training template one_runs
      ≡ some (ok tt, w'))
    × (active_of training w'.state ≡ 3)
    × (reconcile_provisioned_instances keeping_env training template w' ≡ some (ok tt, w'))
unfolding label keeping_env-Store
reconcile_provisioned_instances-Scales_example =
    reconcile_provisioned_instances-Scales keeping_env keeping_env-Store training template 3
      one_runs refl (omega arith) (omega arith) (omega arith) refl
