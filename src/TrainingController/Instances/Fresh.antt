-- ===== src/TrainingController/Instances/Fresh.antt =====
-- `reconcileProvisionedInstances` where each `Create` is accepted.
use spot_instance_training_o.Base.{
  ℕ, zero, suc, ◌+◌, ◌-◌, ◌*◌, ◌≤◌, ◌<◌, ◌≡◌, refl, true, false, Option, some, List, ◌∷◌, String, ℤ,
  pos, ltb_ℤ, count, any, i32_max, to_int32_exact, sub32_exact, add32_exact, double32_exact, arith,
  decimal, decimal_ℤ,
}
use spot_instance_training_o.Api.Meta.{ObjectMeta, label}
use spot_instance_training_o.Api.Template.{InstanceTemplate}
use spot_instance_training_o.Api.Instance.{ProvisionedInstance}
use spot_instance_training_o.Api.Training.{SpotInstanceJob}
use spot_instance_training_o.Cluster.Errors.{Result, ok, err}
use spot_instance_training_o.Cluster.Events.{Trace}
use spot_instance_training_o.Cluster.Prog.{World, ◌>>=◌}
use spot_instance_training_o.Cluster.Env.{Env}
use spot_instance_training_o.Cluster.Hoare.{
  Yields, Delivers, Ensures-pure, Ensures-act_of, Ensures-absurd, Ensures-bind, Ensures-branch,
  Keeps-then, Keeps-ask, Triple-before, Triple-weaken,
}
use spot_instance_training_o.TrainingController.Names.{
  desired_replicas, owned_by, job_replica_label,
}
use spot_instance_training_o.TrainingController.Indices.{skip_taken, take_index}
use spot_instance_training_o.TrainingController.Indices.Search.{Found, skip_taken-Found}
use spot_instance_training_o.TrainingController.Instances.{
  is_active, is_terminated, new_instance, taken_indices, create_missing, must_wait,
  reconcile_provisioned_instances,
}
use spot_instance_training_o.TrainingController.Instances.Creates.{
  created_labels, Creates, Creates-none, Creates-one,
}

-- The owner reference is accepted and changes no label, and every `Create` is accepted.
pub record Accepting {C S W : Type 0} (env : Env C S W) : Type 0 where
  pub owns :
      (owner m : ObjectMeta)
      → (m' : ObjectMeta) × (env.util.set_controller_reference owner m ≡ ok m')
        × (m'.labels ≡ m.labels)
  pub accepts :
      (pi : ProvisionedInstance) (s : W)
      → (made : ProvisionedInstance) × ((env.client.create_instance pi s).0 ≡ ok made)

label-new_instance :
    (sj : SpotInstanceJob) (template : InstanceTemplate) (j now : ℕ)
    → label job_replica_label (new_instance sj template (pos j) now).meta.labels ≡ some (decimal j)
unfolding new_instance label decimal_ℤ
label-new_instance sj template j now = refl

created-label :
    (sj : SpotInstanceJob) (template : InstanceTemplate) (j now : ℕ) (m' : ObjectMeta)
    (old known : List (Option String))
    → m'.labels ≡ (new_instance sj template (pos j) now).meta.labels
    → known ≡ old
    → label job_replica_label m'.labels ∷ known ≡ some (decimal j) ∷ old
created-label sj template j now m' old known kept h =
    rw (kept, h, label-new_instance sj template j now)

module _ {C S W : Type 0} (env : Env C S W) (accepting : Accepting env) (sj : SpotInstanceJob)
    (template : InstanceTemplate) (d n : ℕ) (small : 4 * d + 2 ≤ i32_max) where
  abbrev pub HasCreated : List ℤ → ℕ → ℕ → List (Option String) → Result (Unit {0}) → Trace → Type 0
  HasCreated m i k old r t = (r ≡ ok tt) × Creates (2 * d) m i k old (created_labels t)

  -- The rest of the loop, once the round's index `j` is found.
  create_missing-round :
      (fuel k i j c : ℕ) (m : List ℤ) (old : List (Option String))
      → skip_taken (pos (2 * d)) m (pos i) ≡ some (pos j)
      → Found (2 * d) m i j
      → j + 1 ≤ i32_max
      → c + 1 ≤ i32_max
      → ltb_ℤ (pos c) (pos n) ≡ true
      → Delivers
          (λ t. created_labels t ≡ some (decimal j) ∷ old)
          (create_missing env sj template
            (pos d)
            (pos n)
            fuel
            (pos (j + 1))
            (pos (c + 1))
            (take_index (pos j) m))
          (HasCreated (take_index (pos j) m) (j + 1) k (some (decimal j) ∷ old))
      → Delivers
          (λ t. created_labels t ≡ old)
          (create_missing env sj template (pos d) (pos n) (suc fuel) (pos i) (pos c) m)
          (HasCreated m i (suc k) old)
  unfolding create_missing
  create_missing-round fuel k i j c m old e f hj hc more again =
      Ensures-branch
        (λ _.
          rw (double32_exact d (omega arith), e)
            (Keeps-then (Keeps-ask _) λ now.
              let (m', owned, kept) =
                accepting.owns sj.meta (new_instance sj template (pos j) now).meta in
              rw owned (
                Ensures-bind
                  {Q = λ a t.
                    ((made : ProvisionedInstance) × (a ≡ ok made))
                    × (created_labels t ≡ some (decimal j) ∷ old)}
                  (Ensures-act_of (λ a. (made : ProvisionedInstance) × (a ≡ ok made)) _ _
                    (accepting.accepts
                      (record (new_instance sj template (pos j) now) { meta = m' }))
                    (λ a t known h.
                      (known, created-label sj template j now m' old (created_labels t) kept h)))
                  elim [
                    | err bad ↦ Ensures-absurd _ (λ t h. cc h.0.1)
                    | ok made ↦
                        rw (add32_exact j 1 hj, add32_exact c 1 hc)
                          (Triple-before (λ t h. h.1)
                            (Triple-weaken
                              (λ r t h.
                                (h.0, Creates-one (2 * d) m i j k old (created_labels t) f h.1))
                              again))
                  ])))
        (λ stop. absurd (cc (more, stop)))

  pub create_missing-Creates :
      (fuel k i c : ℕ) (m : List ℤ) (old : List (Option String))
      → k < fuel
      → i ≤ 2 * d + 2 * c
      → c + k ≡ n
      → n ≤ d
      → Delivers
          (λ t. created_labels t ≡ old)
          (create_missing env sj template (pos d) (pos n) fuel (pos i) (pos c) m)
          (HasCreated m i k old)
  unfolding create_missing
  create_missing-Creates zero k i c m old hf hi hn hd = absurd (omega arith)
  create_missing-Creates (suc fuel) zero i c m old hf hi hn hd =
      Ensures-branch (λ more. absurd (ground arith))
        (λ _. Ensures-pure _ (λ t h. (refl, rw h (Creates-none (2 * d) m i old))))
  create_missing-Creates (suc fuel) (suc k) i c m old hf hi hn hd =
      let (j, e, f) = skip_taken-Found (2 * d) m i (omega arith) (omega arith) in
      create_missing-round fuel k i j c m old e f (omega (arith, f.bounded)) (omega arith)
        (ground arith)
        (create_missing-Creates fuel k (j + 1) (c + 1) (take_index (pos j) m)
          (some (decimal j) ∷ old) (omega arith) (omega (arith, f.bounded)) (omega arith) hd)

-- If `d` replicas are wanted, 4 * `d` + 2 fits an `int32`, the listed instances, of which `a` < `d` are
-- active, include none that is TERMINATED with a preemption notice, every owner reference and every
-- `Create` is accepted, and the loop is given more than `d` - `a` rounds, then the call succeeds and
-- creates exactly `d` - `a` instances; their replica indices ascend strictly, and each is free in the
-- map of the indices of the listed instances that are not preempted, or is at least twice `d`.
pub reconcile_provisioned_instances-Creates :
    {C S W : Type 0} (env : Env C S W) (sj : SpotInstanceJob) (template : InstanceTemplate)
    (w : World W) (d : ℕ) (items : List ProvisionedInstance) (s : W)
    → Accepting env
    → desired_replicas sj ≡ pos d
    → 4 * d + 2 ≤ i32_max
    → env.client.list_instances sj.meta.namespace (owned_by sj) w.state ≡ (ok items, s)
    → count is_active items < d
    → any is_terminated items ≡ false
    → d - count is_active items < env.patience
    → Yields (reconcile_provisioned_instances env sj template w) (λ r t.
      (r ≡ ok tt)
      × Creates
          (2 * d)
          (taken_indices items)
          0
          (d - count is_active items)
          (created_labels w.trace)
          (created_labels t))
unfolding reconcile_provisioned_instances must_wait ◌>>=◌
reconcile_provisioned_instances-Creates env sj template w d items s accepting wants small listed few
      calm enough =
    let n = count is_active items in
    let fits : n ≤ i32_max = omega arith in
    let less : ltb_ℤ (pos n) (pos d) ≡ true = ground arith in
    rw
      (
        listed,
        wants,
        to_int32_exact n fits,
        calm,
        less,
        sub32_exact d n (omega arith) (omega arith),
      )
      ((create_missing-Creates env accepting sj template d (d - n) small env.patience (d - n) 0 0
          (taken_indices items) (created_labels w.trace) enough (omega arith) (omega arith)
          (omega arith)).at
        (record w { state = s }) refl)
