-- ===== src/Gcp/Waiting.antt =====
-- `waitForOperation` of internal/gcp/provisioner.go: what its end depends on.
use spot_instance_training_o.Base.{
  ℕ, zero, suc, ◌<◌, ◌≡◌, false, none, some, String, str_eq, arith, inl, inr, Bool-cases,
  Option-cases,
}
use spot_instance_training_o.Api.Compute.{Operation}
use spot_instance_training_o.Cluster.Errors.{ok, err, Result-cases}
use spot_instance_training_o.Cluster.Events.{Trace}
use spot_instance_training_o.Cluster.Prog.{World, ◌>>=◌}
use spot_instance_training_o.Cluster.Cloud.{Cloud}
use spot_instance_training_o.Cluster.Hoare.{
  Preserves, Yields, Ensures-stuck, Ensures-branch, Keeps-pure, Keeps-ask, Keeps-then,
}
use spot_instance_training_o.Gcp.Provisioner.{Provisioner, wait_for_operation}

-- A zone operation is done, or the context of the call ends, after a bounded number of looks: a
-- measure of the surroundings falls with each look at an operation that is not done.
pub record Settling {C S W : Type 0} (cloud : Cloud C S W) (fuel : ℕ) : Type 0 where
  pub left : W → ℕ
  pub within : (s : W) → left s < fuel
  pub falls :
      (service : S) (project zone name : String) (s : W) (result : Operation)
      → (cloud.wait_tick s).0 ≡ none
      → (cloud.get_operation service project zone name (cloud.wait_tick s).1).0 ≡ ok result
      → str_eq result.status "DONE" ≡ false
      → left (cloud.get_operation service project zone name (cloud.wait_tick s).1).1 < left s

-- A wait keeps every property of the trace. `Z` says what a wait that does not end may leave open.
pub record Waits {C S W : Type 0} (Z : Type 0) (cloud : Cloud C S W) (fuel : ℕ) : Type 1 where
  pub keeps :
      (P : Trace → Type 0) (p : Provisioner S) (op : Operation) (zone : String)
      → Preserves Z P (wait_for_operation cloud fuel p op zone)

module _ {C S W : Type 0} (cloud : Cloud C S W) where
  module _ (P : Trace → Type 0) (p : Provisioner S) (op : Operation) (zone : String) where
    wait_for_operation-Keeps :
        (fuel : ℕ) → Preserves (Unit {0}) P (wait_for_operation cloud fuel p op zone)
    unfolding wait_for_operation
    wait_for_operation-Keeps zero = Ensures-stuck
    wait_for_operation-Keeps (suc fuel) =
        let again = wait_for_operation-Keeps fuel in
        Keeps-then (Keeps-ask _) elim [
          | some e ↦ Keeps-pure _
          | none ↦ Keeps-then (Keeps-ask _) elim [
            | err e ↦ Keeps-pure _
            | ok result ↦ Ensures-branch (λ done. Keeps-pure _) (λ not_yet. again)
          ]
        ]

    wait_for_operation-Yields :
        {bound : ℕ} (settling : Settling cloud bound) (fuel : ℕ) (w : World W)
        → settling.left w.state < fuel
        → P w.trace
        → Yields (wait_for_operation cloud fuel p op zone w) (λ _. P)
    unfolding wait_for_operation ◌>>=◌
    wait_for_operation-Yields settling zero w h g = absurd (omega arith)
    wait_for_operation-Yields settling (suc fuel) w h g =
        let s = w.state in
        elim (Option-cases (cloud.wait_tick s).0) [
          | inr (e, ended) ↦ rw ended g
          | inl goes_on ↦
              elim (Result-cases
                (cloud.get_operation p.compute_service p.project zone op.name
                  (cloud.wait_tick s).1).0) [
                    | inr (e, bad) ↦ rw (goes_on, bad) g
                    | inl (result, looked) ↦ elim (Bool-cases (str_eq result.status "DONE")) [
                      | inl done ↦ rw (goes_on, looked, done) g
                      | inr not_yet ↦
                          let less =
                            settling.falls p.compute_service p.project zone op.name s result goes_on
                              looked not_yet in
                          rw (goes_on, looked, not_yet)
                            (wait_for_operation-Yields settling fuel
                              (record w {
                                state =
                                    (cloud.get_operation p.compute_service p.project zone op.name
                                      (cloud.wait_tick s).1).1;
                              })
                              (omega (arith, less)) g)
                    ]
                  ]
        ]

  -- Whatever the cloud does.
  pub Waits-partial : (fuel : ℕ) → Waits (Unit {0}) cloud fuel
  Waits-partial fuel = record { keeps = λ P p op zone. wait_for_operation-Keeps P p op zone fuel }

  -- Where the operations settle in time.
  pub Waits-total : (fuel : ℕ) → Settling cloud fuel → Waits ⊥ cloud fuel
  Waits-total fuel settling = record {
    keeps = λ P p op zone. record {
      at = λ w g. wait_for_operation-Yields P p op zone settling fuel w (settling.within w.state) g;
    };
  }
