-- ===== src/TrainingController/Instances/Endless.antt =====
-- `reconcileProvisionedInstances` where each `Create` is refused.
use spot_instance_training_o.Base.{
  ℕ, zero, suc, ◌≡◌, true, false, none, List, ℤ, pos, ltb_ℤ, add32, double32, count, any,
  Option-cases, ◌≤◌, ◌<◌, ◌-◌, i32_max, to_int32_exact, sub32_exact, arith, inl, inr,
}
use spot_instance_training_o.Api.Meta.{ObjectMeta}
use spot_instance_training_o.Api.Template.{InstanceTemplate}
use spot_instance_training_o.Api.Instance.{ProvisionedInstance}
use spot_instance_training_o.Api.Training.{SpotInstanceJob}
use spot_instance_training_o.Cluster.Errors.{Error, ok, err}
use spot_instance_training_o.Cluster.Prog.{World, ◌>>=◌}
use spot_instance_training_o.Cluster.Env.{Env}
use spot_instance_training_o.Cluster.Hoare.{
  Ensures, Ensures-stuck, Ensures-act_of, Ensures-absurd, Ensures-bind, Ensures-branch, Keeps-then,
  Keeps-ask, Triple-before, none-of_Post,
}
use spot_instance_training_o.TrainingController.Names.{desired_replicas, owned_by}
use spot_instance_training_o.TrainingController.Indices.{skip_taken}
use spot_instance_training_o.TrainingController.Instances.{
  is_active, is_terminated, new_instance, taken_indices, create_missing, must_wait,
  reconcile_provisioned_instances,
}

-- The owner reference is accepted, and every `Create` is refused.
pub record Refusing {C S W : Type 0} (env : Env C S W) : Type 0 where
  pub owns :
      (owner m : ObjectMeta)
      → (m' : ObjectMeta) × (env.util.set_controller_reference owner m ≡ ok m')
  pub refuses :
      (pi : ProvisionedInstance) (s : W)
      → (e : Error) × ((env.client.create_instance pi s).0 ≡ err e)

module _ {C S W : Type 0} (env : Env C S W) (refusing : Refusing env) (sj : SpotInstanceJob)
    (template : InstanceTemplate) where
  create_missing-never_ends :
      (desired needed : ℤ) (fuel : ℕ) (index created : ℤ) (taken : List ℤ)
      → ltb_ℤ created needed ≡ true
      → Ensures
          (λ t. Unit)
          (create_missing env sj template desired needed fuel index created taken)
          (λ r t. ⊥)
  unfolding create_missing
  create_missing-never_ends desired needed zero index created taken h = Ensures-stuck
  create_missing-never_ends desired needed (suc fuel) index created taken h =
      Ensures-branch
        (λ _. elim (Option-cases (skip_taken (double32 desired) taken index)) [
          | inl none_left ↦ rw none_left Ensures-stuck
          | inr (i, found) ↦
              let again =
                λ (next : ℤ). create_missing-never_ends desired needed fuel next created taken h in
              rw found (
                Keeps-then (Keeps-ask _) λ now.
                  let (m', owned) = refusing.owns sj.meta (new_instance sj template i now).meta in
                  rw owned (
                    Ensures-bind {Q = λ a t. (e : Error) × (a ≡ err e)}
                      (Ensures-act_of (λ a. (e : Error) × (a ≡ err e)) _ _
                        (refusing.refuses (record (new_instance sj template i now) { meta = m' }))
                        (λ a t known _. known))
                      elim [
                        | err e ↦ Triple-before (λ t _. tt) (again (add32 i (pos 1)))
                        | ok pi ↦ Ensures-absurd _ (λ t bad. cc bad.1)
                      ]))
        ])
        (λ stop. Ensures-absurd _ (λ t _. cc))

-- If fewer instances are active than replicas are wanted, a number that fits an `int32`, none is
-- TERMINATED with a preemption notice, every owner reference is accepted, and the API server refuses
-- every `Create`, then the call does not return, however many rounds its loop is given.
pub reconcile_provisioned_instances-never_ends :
    {C S W : Type 0} (env : Env C S W) (sj : SpotInstanceJob) (template : InstanceTemplate)
    (w : World W) (d : ℕ) (items : List ProvisionedInstance) (s : W)
    → Refusing env
    → desired_replicas sj ≡ pos d
    → d ≤ i32_max
    → env.client.list_instances sj.meta.namespace (owned_by sj) w.state ≡ (ok items, s)
    → count is_active items < d
    → any is_terminated items ≡ false
    → reconcile_provisioned_instances env sj template w ≡ none
unfolding reconcile_provisioned_instances must_wait ◌>>=◌
reconcile_provisioned_instances-never_ends env sj template w d items s refusing wants fits listed
      few calm =
    let n = count is_active items in
    let small : n ≤ i32_max = omega arith in
    let less : ltb_ℤ (pos n) (pos d) ≡ true = ground arith in
    let needed : ltb_ℤ (pos 0) (pos (d - n)) ≡ true = ground arith in
    rw (listed, wants, to_int32_exact n small, calm, less, sub32_exact d n (omega arith) fits)
      (none-of_Post _ (
        (create_missing-never_ends env refusing sj template (pos d) (pos (d - n)) env.patience
            (pos 0) (pos 0) (taken_indices items) needed).at
          (record w { state = s }) tt))
