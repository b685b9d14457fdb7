-- ===== src/Tests/Owners.antt =====
-- A training job that has nothing yet, and what its first reconciliation creates.
use mathlib.Core.Path.{subst}
use spot_instance_training_o.Base.{
  false, ◌≤◌, ◌≡◌, refl, none, List, [], count, length, i32_max, arith,
}
use spot_instance_training_o.Api.Instance.{ProvisionedInstance}
use spot_instance_training_o.Api.Kube.{Job}
use spot_instance_training_o.Cluster.Errors.{ok, is_over}
use spot_instance_training_o.Cluster.Env.{Env}
use spot_instance_training_o.Cluster.Hoare.{Yields}
use spot_instance_training_o.TrainingController.Instances.{is_active}
use spot_instance_training_o.TrainingController.Instances.Fresh.{Accepting}
use spot_instance_training_o.TrainingController.Restore.Kept.{GetLaw}
use spot_instance_training_o.TrainingController.Reconcile.{with_finalizer, reconcile}
use spot_instance_training_o.TrainingController.Reconcile.Kept.{Stays}
use spot_instance_training_o.TrainingController.Reconcile.Returns.{Sized}
use spot_instance_training_o.TrainingController.Reconcile.Watch.{Wants, reconcile-GoesOn}
use spot_instance_training_o.TrainingController.Reconcile.Owned.{
  PlaceLaw, IsThis, AllOwned, reconcile-AllOwned,
}
use spot_instance_training_o.Tests.Objects.{instance_of, vm_of, training}
use spot_instance_training_o.Tests.Clouds.{
  env_of, accepting, start, util, util-OwnerLaw, in_order, in_order-RangeLaw,
}

abbrev new_env : Env (Unit {0}) (Unit {0}) (Unit {0})
new_env =
    env_of (instance_of "other" "other" "RUNNING" [] none) [] [] (ok (vm_of "other" "RUNNING"))
      accepting

training-IsThis : IsThis "default" "bert" 3 training
training-IsThis = record { namespace_is = refl; name_is = refl; wants = refl }

new_env-Stays : Stays new_env in_order (IsThis "default" "bert" 3) "default" "bert"
new_env-Stays = record {
  got = λ s sj e.
      let same : training ≡ sj = cc e in subst (IsThis "default" "bert" 3) same training-IsThis;
  updated = λ sj s this sj' e.
      let same : with_finalizer new_env in_order sj ≡ sj' = cc e in
      subst (IsThis "default" "bert" 3) same
        (record { namespace_is = this.namespace_is; name_is = this.name_is; wants = this.wants });
  status_updated =
      λ sj s this sj' e. let same : sj ≡ sj' = cc e in subst (IsThis "default" "bert" 3) same this;
}

new_env-Accepting : Accepting new_env
new_env-Accepting = record { owns = λ owner m. (m, refl, refl); accepts = λ pi s. (pi, refl) }

util-PlaceLaw : PlaceLaw util
util-PlaceLaw = record { place = λ owner m m' h. cc }

new_env-GetLaw : GetLaw new_env.client
new_env-GetLaw = record { name = λ namespace name s job h. cc }

new_env-Sized : Sized new_env.client
new_env-Sized = record {
  instances = λ namespace selector s items e.
      let same : ◌≡◌ {A = List ProvisionedInstance} [] items = cc e in
      subst (λ l. count is_active l ≤ i32_max) same (omega arith);
  jobs = λ namespace selector s jobs e.
      let same : ◌≡◌ {A = List Job} [] jobs = cc e in
      subst (λ l. length l ≤ i32_max) same (omega arith);
}

reconcile-AllOwned_example :
    Yields
      (reconcile new_env in_order "default" "bert" start)
      (λ _ t. AllOwned new_env.util "default" "bert" t)
reconcile-AllOwned_example =
    reconcile-AllOwned new_env in_order "default" "bert" 3 start new_env-Stays new_env-Accepting
      util-OwnerLaw util-PlaceLaw new_env-GetLaw in_order-RangeLaw new_env-Sized (omega arith)
      (omega arith) tt

new_env-Stays_wanting : Stays new_env in_order (Wants 3) "default" "bert"
new_env-Stays_wanting = record {
  got = λ s sj e. let same : training ≡ sj = cc e in subst (Wants 3) same refl;
  updated = λ sj s wants sj' e.
      let same : with_finalizer new_env in_order sj ≡ sj' = cc e in subst (Wants 3) same wants;
  status_updated = λ sj s wants sj' e. let same : sj ≡ sj' = cc e in subst (Wants 3) same wants;
}

reconcile-GoesOn_example :
    Yields (reconcile new_env in_order "default" "bert" start) (λ out t. is_over out ≡ false)
reconcile-GoesOn_example =
    reconcile-GoesOn new_env in_order "default" "bert" 3 start training tt refl refl refl
      new_env-Stays_wanting new_env-Accepting util-OwnerLaw new_env-GetLaw in_order-RangeLaw
      new_env-Sized (omega arith) (omega arith)
