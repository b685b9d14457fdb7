-- ===== src/Tests/Departures.antt =====
-- The deletion of an object where nothing is refused.
use spot_instance_training_o.Base.{◌≡◌, refl, false, none, some, [], ◌∷◌}
use spot_instance_training_o.Api.Meta.{label}
use spot_instance_training_o.Api.Instance.{ProvisionedInstance}
use spot_instance_training_o.Cluster.Errors.{ok}
use spot_instance_training_o.Cluster.Env.{Env}
use spot_instance_training_o.Cluster.Hoare.{Yields}
use spot_instance_training_o.InstanceController.Deletion.{
  provisioned_instance_finalizer, without_finalizer,
}
use spot_instance_training_o.InstanceController.Reconcile.{reconcile}
use spot_instance_training_o.InstanceController.Watch.{IsWatched, reconcile-IsWatched}
use spot_instance_training_o.InstanceController.Departure.Removal.{Accepts}
use spot_instance_training_o.InstanceController.Departure.{LetsGo, reconcile-LetsGo}
use spot_instance_training_o.Tests.Objects.{instance_of, vm_of, template, secret}
use spot_instance_training_o.Tests.Clouds.{
  env_of, accepting, start, util, util-FinalizerLaws, cloud_of-Settling, done,
}

abbrev plain : ProvisionedInstance
plain = instance_of "bert-0" "bert-0" "RUNNING" [] (some 1)

-- It is being deleted, records a VM and has the finalizer.
abbrev pub leaving : ProvisionedInstance
leaving = record plain {
  meta = record plain.meta { finalizers = provisioned_instance_finalizer ∷ [] };
}

abbrev leaving_env : Env (Unit {0}) (Unit {0}) (Unit {0})
leaving_env = env_of leaving [] [] (ok (vm_of "bert-0" "RUNNING")) accepting

leaving-Accepts : Accepts leaving_env leaving
unfolding label
leaving-Accepts = record {
  template = template;
  secret = secret;
  json = "{}";
  creds = tt;
  service = tt;
  deletion = done;
  reads_template = λ s. refl;
  reads_secret = λ s. refl;
  has_json = refl;
  makes_creds = λ s. refl;
  makes_service = λ s. refl;
  deletes = λ s. refl;
  goes_on = λ s. refl;
  looks = λ s. (done, refl, refl);
  updates = λ o s. refl;
}

reconcile-LetsGo_example :
    Yields (reconcile leaving_env "default" "bert-0" start) (LetsGo leaving_env leaving)
    × (util.contains_finalizer
          (without_finalizer leaving_env leaving).meta
          provisioned_instance_finalizer
        ≡ false)
reconcile-LetsGo_example =
    reconcile-LetsGo leaving_env leaving "default" "bert-0" start leaving-Accepts
      (cloud_of-Settling _ _) util-FinalizerLaws (λ s. refl) refl refl

-- An object whose VM has stopped, found by an object that lives.
abbrev living : ProvisionedInstance
living = record plain { meta = record plain.meta { deletion_timestamp = none } }

abbrev stopped_env : Env (Unit {0}) (Unit {0}) (Unit {0})
stopped_env = env_of living [] [] (ok (vm_of "bert-0" "TERMINATED")) accepting

reconcile-IsWatched_example :
    Yields (reconcile stopped_env "default" "bert-0" (record { state = tt; trace = [] })) IsWatched
reconcile-IsWatched_example =
    reconcile-IsWatched stopped_env "default" "bert-0" tt living tt (cloud_of-Settling _ _) refl
      refl
