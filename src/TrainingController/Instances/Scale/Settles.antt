-- ===== src/TrainingController/Instances/Scale/Settles.antt =====
-- `reconcileProvisionedInstances` refines the abstract operation on the number of active instances.
use mathlib.Core.Path.{subst, sym}
use spot_instance_training_o.Base.{
  ℕ, zero, suc, ◌+◌, ◌-◌, ◌*◌, ◌≤◌, ◌<◌, ◌≡◌, refl, ◌∙◌, ltb, true, false, some, List, ◌∷◌, ℤ, pos,
  ltb_ℤ, i32_max, to_int32_exact, sub32_exact, add32_exact, double32_exact, arith, ◌⊎◌, inl, inr,
  Bool-cases, any, and-false,
}
use spot_instance_training_o.Api.Template.{InstanceTemplate}
use spot_instance_training_o.Api.Training.{SpotInstanceJob}
use spot_instance_training_o.Cluster.Errors.{ok}
use spot_instance_training_o.Cluster.Events.{instance_created}
use spot_instance_training_o.Cluster.Prog.{World, ◌>>=◌}
use spot_instance_training_o.Cluster.Env.{Env}
use spot_instance_training_o.TrainingController.Names.{desired_replicas, owned_by}
use spot_instance_training_o.TrainingController.Indices.{take_index}
use spot_instance_training_o.TrainingController.Indices.Search.{skip_taken-Found}
use spot_instance_training_o.TrainingController.Instances.{
  is_terminated, new_instance, taken_indices, create_missing, must_wait,
  reconcile_provisioned_instances,
}
use spot_instance_training_o.TrainingController.Instances.Scale.{
  Store, listed_in, active_of, scale_to, IsCalm, active_of-made, IsCalm-made,
}

module _ {C S W : Type 0} (env : Env C S W) (store : Store env) (sj : SpotInstanceJob)
    (template : InstanceTemplate) where
  abbrev active : W → ℕ
  active s = active_of sj (store.stored s)

  -- The end of a run that has added `k` active instances.
  record Grown (s : W) (k : ℕ) (w' : World W) : Type 0 where
    more : active w'.state ≡ k + active s
    calm : IsCalm sj (store.stored s) → IsCalm sj (store.stored w'.state)

  module _ (d n : ℕ) (small : 4 * d + 2 ≤ i32_max) where
    create_missing-Grown :
        (fuel k i c : ℕ) (m : List ℤ) (w : World W)
        → k < fuel
        → i ≤ 2 * d + 2 * c
        → c + k ≡ n
        → n ≤ d
        → (w' : World W) × (create_missing env sj template (pos d) (pos n) fuel (pos i) (pos c) m w
            ≡ some (ok tt, w'))
          × Grown w.state k w'
    unfolding create_missing ◌>>=◌
    create_missing-Grown zero k i c m w hf hi hn hd = absurd (omega arith)
    create_missing-Grown (suc fuel) zero i c m w hf hi hn hd =
        let stop : ltb_ℤ (pos c) (pos n) ≡ false = ground arith in
        (w, rw stop refl, record { more = omega arith; calm = λ h. h })
    create_missing-Grown (suc fuel) (suc k) i c m w hf hi hn hd =
        let goes : ltb_ℤ (pos c) (pos n) ≡ true = ground arith in
        let (j, found, f) = skip_taken-Found (2 * d) m i (omega arith) (omega arith) in
        let now = env.client.now w.state in
        let (m', owned, place, kept, stays) =
          store.owns sj.meta (new_instance sj template (pos j) now.0).meta in
        let pi = record (new_instance sj template (pos j) now.0) { meta = m' } in
        let (made, s', created, grows, copy) = store.creates pi now.1 in
        let one : active s' ≡ suc (active w.state) =
          rw
            (
              grows,
              active_of-made sj template (pos j) now.0 m' made place kept stays copy
                  (store.stored now.1),
              store.tells_time w.state,
            )
            refl in
        let (w', run, grown) =
          create_missing-Grown fuel k (j + 1) (c + 1) (take_index (pos j) m)
            (record { state = s'; trace = instance_created pi (ok made) ∷ w.trace }) (omega arith)
            (omega (arith, f.bounded)) (omega arith) hd in
        (
          w',
          rw
              (
                goes,
                double32_exact d (omega arith),
                found,
                owned,
                created,
                add32_exact j 1 (omega (arith, f.bounded)),
                add32_exact c 1 (omega arith),
              )
              run,
          record {
            more = omega (arith, grown.more, one);
            calm = λ h. grown.calm (
                subst (IsCalm sj) (sym grows) (
                  IsCalm-made sj template (pos j) now.0 m' made place kept stays copy
                    (store.stored now.1) (subst (IsCalm sj) (sym (store.tells_time w.state)) h)));
          },
        )

module _ {C S W : Type 0} (env : Env C S W) (store : Store env) (sj : SpotInstanceJob)
    (template : InstanceTemplate) (d : ℕ) (wants : desired_replicas sj ≡ pos d)
    (small : 4 * d + 2 ≤ i32_max) (enough : d < env.patience) (w : World W)
    (fits : active_of sj (store.stored w.state) ≤ i32_max) where
  -- With too few, as many are made as are missing.
  reconcile_provisioned_instances-grows :
      IsCalm sj (store.stored w.state)
      → active env store sj template w.state < d
      → (w' : World W) × (reconcile_provisioned_instances env sj template w ≡ some (ok tt, w'))
        × Grown env store sj template w.state (d - active env store sj template w.state) w'
  unfolding reconcile_provisioned_instances must_wait ◌>>=◌
  reconcile_provisioned_instances-grows calm few =
      let n = active_of sj (store.stored w.state) in
      let items = listed_in sj.meta.namespace (owned_by sj) (store.stored w.state) in
      let less : ltb_ℤ (pos n) (pos d) ≡ true = ground arith in
      rw
        (
          store.lists sj.meta.namespace (owned_by sj) w.state,
          wants,
          to_int32_exact n fits,
          calm,
          less,
          sub32_exact d n (omega arith) (omega arith),
        )
        (create_missing-Grown env store sj template d (d - n) small env.patience (d - n) 0 0
          (taken_indices items) w (omega arith) (omega arith) (omega arith) (omega arith))

  -- With enough, nothing is written.
  reconcile_provisioned_instances-rests :
      d ≤ active env store sj template w.state
      → reconcile_provisioned_instances env sj template w ≡ some (ok tt, w)
  unfolding reconcile_provisioned_instances must_wait ◌>>=◌
  reconcile_provisioned_instances-rests many =
      let n = active_of sj (store.stored w.state) in
      let items = listed_in sj.meta.namespace (owned_by sj) (store.stored w.state) in
      let not_less : ltb_ℤ (pos n) (pos d) ≡ false = ground arith in
      rw
        (
          store.lists sj.meta.namespace (owned_by sj) w.state,
          wants,
          to_int32_exact n fits,
          not_less,
          and-false (any is_terminated items) false refl,
        )
        refl

scale_to-cases : (d n : ℕ) → ((n < d) × (scale_to d n ≡ d)) ⊎ ((d ≤ n) × (scale_to d n ≡ n))
scale_to-cases d n = elim (Bool-cases (ltb n d)) [
  | inl less ↦ inl (ground arith, ground arith)
  | inr enough ↦ inr (ground arith, ground arith)
]

-- Over an API server that creates all that it is asked for, keeps it, and is used by no one else in
-- the meantime: `d` replicas are wanted, 4 * `d` + 2 and the number of the job's active instances fit
-- an `int32`, none of the job's instances is TERMINATED with a preemption notice, and the loop is
-- given more than `d` rounds. Then `reconcileProvisionedInstances` returns without an error, and what
-- it does to the number of active instances of the training job is to raise it to `d` if it is less,
-- and otherwise to leave it. A second call returns without an error too, writes nothing and changes
-- nothing.
pub reconcile_provisioned_instances-Scales :
    {C S W : Type 0} (env : Env C S W) (store : Store env) (sj : SpotInstanceJob)
    (template : InstanceTemplate) (d : ℕ) (w : World W)
    → desired_replicas sj ≡ pos d
    → 4 * d + 2 ≤ i32_max
    → d < env.patience
    → active_of sj (store.stored w.state) ≤ i32_max
    → IsCalm sj (store.stored w.state)
    → (w' : World W) × (reconcile_provisioned_instances env sj template w ≡ some (ok tt, w'))
      × (active_of sj (store.stored w'.state) ≡ scale_to d (active_of sj (store.stored w.state)))
      × (reconcile_provisioned_instances env sj template w' ≡ some (ok tt, w'))
reconcile_provisioned_instances-Scales env store sj template d w wants small enough fits calm =
    elim (scale_to-cases d (active_of sj (store.stored w.state))) [
      | inr (many, same) ↦
          let rests =
            reconcile_provisioned_instances-rests env store sj template d wants small enough w fits
              many in
          (w, rests, sym same, rests)
      | inl (few, all) ↦
          let (w', run, grown) =
            reconcile_provisioned_instances-grows env store sj template d wants small enough w fits
              calm few in
          let full : active_of sj (store.stored w'.state) ≡ d = omega (arith, grown.more) in
          (
            w',
            run,
            full ∙ sym all,
            reconcile_provisioned_instances-rests env store sj template d wants small enough w'
                (omega arith) (omega arith),
          )
    ]
