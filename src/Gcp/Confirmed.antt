-- ===== src/Gcp/Confirmed.antt =====
-- `DeleteInstance` of internal/gcp/provisioner.go: what its success says of the operation.
use spot_instance_training_o.Base.{
  ◌≡◌, refl, ap, ◌⊎◌, inl, inr, Option-cases, ℕ, zero, suc, true, String, none, some, ◌∷◌, str_eq,
}
use spot_instance_training_o.Api.Compute.{Operation}
use spot_instance_training_o.Cluster.Errors.{Error, Result, ok, err, wrap}
use spot_instance_training_o.Cluster.Events.{Trace, vm_deleted, deletion_ended}
use spot_instance_training_o.Cluster.Prog.{World}
use spot_instance_training_o.Cluster.Cloud.{Cloud}
use spot_instance_training_o.Cluster.Hoare.{
  Ensures, Delivers, Yields, Ensures-stuck, Ensures-pure, Ensures-act, Ensures-ask_of, Ensures-bind,
  Ensures-branch, Ensures-known, Keeps-then, Keeps-ask, Triple-ended,
}
use spot_instance_training_o.Gcp.Provisioner.{
  Provisioner, wait_for_operation, operation_result, wrap_error, delete_instance,
}
use spot_instance_training_o.Gcp.Waiting.{Settling, Waits-total}

module _ {C S W : Type 0} (cloud : Cloud C S W) (p : Provisioner S) (zone : String) where
  -- Compute Engine has answered that the operation is done and has no error.
  abbrev pub IsDone : Operation → Type 0
  IsDone op =
      (s : W) × (result : Operation) × ((cloud.get_operation p.compute_service p.project zone
          op.name s).0
        ≡ ok result)
      × (str_eq result.status "DONE" ≡ true)
      × (result.error ≡ none)

  -- What a result says of an operation.
  abbrev Confirms : Operation → Result (Unit {0}) → Type 0
  Confirms op (ok _) = IsDone op
  Confirms op (err e) = Unit

  Looked : Operation → Result Operation → Type 0
  Looked op a = (s : W) × ((cloud.get_operation p.compute_service p.project zone op.name s).0 ≡ a)

  module _ (op : Operation) where
    operation_result-Confirms :
        (result : Operation)
        → Looked op (ok result)
        → str_eq result.status "DONE" ≡ true
        → Confirms op (operation_result result)
    unfolding Looked operation_result
    operation_result-Confirms result looked done = elim (Option-cases result.error) [
      | inl fine ↦ rw fine (looked.0, result, looked.1, done, fine)
      | inr (e, failed) ↦ rw failed tt
    ]

    wait_for_operation-Confirms :
        (P : Trace → Type 0) (fuel : ℕ)
        → Ensures P (wait_for_operation cloud fuel p op zone) (λ r t. Confirms op r × P t)
    unfolding wait_for_operation Looked
    wait_for_operation-Confirms P zero = Ensures-stuck
    wait_for_operation-Confirms P (suc fuel) = Keeps-then (Keeps-ask _) elim [
      | some e ↦ Ensures-pure _ (λ t h. (tt, h))
      | none ↦
          Ensures-known (Looked op)
            (Ensures-ask_of (Looked op) _ (λ s. (s, refl)) (λ a t known h. (known, h)))
            elim [
              | err e ↦ λ known. Ensures-pure _ (λ t h. (tt, h))
              | ok result ↦ λ known.
                  Ensures-branch
                    (λ done.
                      Ensures-pure _ (λ t h. (operation_result-Confirms result known done, h)))
                    (λ not_yet. wait_for_operation-Confirms P fuel)
            ]
    ]

-- What one call writes, by what it returns: the deletion was accepted, and the operation that it was
-- answered with is done without an error; or it was refused, and that error is returned; or the wait for
-- the operation ended in an error, and that one is.
abbrev pub Deletes :
    {C S W : Type 0}
    → Cloud C S W
    → Provisioner S
    → String
    → String
    → String
    → Trace
    → Result (Unit {0})
    → Trace
    → Type 0
Deletes cloud p project zone name old (ok _) t =
    (op : Operation) × (t
      ≡ deletion_ended project zone name (ok tt) ∷ vm_deleted project zone name (ok op) ∷ old)
    × IsDone cloud p zone op
Deletes cloud p project zone name old (err e) t =
    ((refusal : Error) × (t ≡ vm_deleted project zone name (err refusal) ∷ old)
      × (e ≡ wrap "failed to delete instance" refusal))
    ⊎ ((op : Operation) × (failure : Error) × (t
          ≡ deletion_ended project zone name (err failure)
            ∷ vm_deleted project zone name (ok op)
            ∷ old)
        × (e ≡ wrap "failed to wait for delete operation" failure))

module _ {C S W : Type 0} (cloud : Cloud C S W) (p : Provisioner S) (project zone name : String)
    (fuel : ℕ) (settling : Settling cloud fuel) (old : Trace) where
  wait-Confirms :
      (op : Operation) (P : Trace → Type 0)
      → Delivers P
          (wait_for_operation cloud fuel p op zone)
          (λ r t. Confirms cloud p zone op r × P t)
  wait-Confirms op P =
      Triple-ended ((Waits-total cloud fuel settling).keeps P p op zone)
        (wait_for_operation-Confirms cloud p zone op P fuel)

  ended-Deletes :
      (op : Operation) (r : Result (Unit {0})) (t : Trace)
      → Confirms cloud p zone op r
      → t ≡ deletion_ended project zone name r ∷ vm_deleted project zone name (ok op) ∷ old
      → Deletes cloud p project zone name old (wrap_error "failed to wait for delete operation" r) t
  unfolding wrap_error
  ended-Deletes op (ok _) t done wrote = (op, wrote, done)
  ended-Deletes op (err e) t known wrote = inr (op, e, wrote, refl)

  delete_instance-Delivers :
      Delivers
        (λ t. t ≡ old)
        (delete_instance cloud fuel p project zone name)
        (Deletes cloud p project zone name old)
  unfolding delete_instance
  delete_instance-Delivers =
      Ensures-bind {Q = λ a t. t ≡ vm_deleted project zone name a ∷ old}
        (Ensures-act _ _ (λ a t h. ap (λ v. vm_deleted project zone name a ∷ v) h))
        elim [
          | err e ↦ Ensures-pure _ (λ t h. inl (e, h, refl))
          | ok op ↦ Ensures-known (Confirms cloud p zone op) (wait-Confirms op _) (λ r known.
              Ensures-bind
                {Q = λ _ t.
                  t
                  ≡ deletion_ended project zone name r ∷ vm_deleted project zone name (ok op) ∷ old}
                (Ensures-act _ _ (λ _ t h. ap (λ v. deletion_ended project zone name r ∷ v) h))
                (λ _. Ensures-pure _ (λ t h. ended-Deletes op r t known h)))
        ]

-- Where every zone operation is done, or the context of its wait ends, after a bounded number of looks,
-- whatever else is answered: `DeleteInstance` returns and asks for one deletion, of the VM of the name in
-- the project and the zone. It returns without an error only if the deletion was accepted and Compute
-- Engine answered, in some state, that the operation that the deletion was answered with has the status
-- DONE and no error. Else it returns the refusal of the deletion, or the error in which the wait for
-- the operation ended, with the text that tells which of the two.
pub delete_instance-Deletes :
    {C S W : Type 0} (cloud : Cloud C S W) (p : Provisioner S) (project zone name : String)
    (fuel : ℕ) (w : World W)
    → Settling cloud fuel
    → Yields
        (delete_instance cloud fuel p project zone name w)
        (Deletes cloud p project zone name w.trace)
delete_instance-Deletes cloud p project zone name fuel w settling =
    (delete_instance-Delivers cloud p project zone name fuel settling w.trace).at w refl
