-- ===== src/TrainingController/Instances/Adopted.antt =====
-- The names of the instances: a VM is found by the name of its own object only.
use mathlib.Core.Path.{subst}
use text.Mathlib.TextEquality.{starts_with_iff}
use text.Mathlib.TextLemmas.{append_assoc, append_cancel_left}
use spot_instance_training_o.Base.{
  ◌≡◌, refl, sym, ◌∙◌, ap, ℕ, ◌/◌, ◌*◌, ◌≤◌, ◌<◌, true, false, String, append, List, [], ◌∷◌, pos,
  decimal, starts_with, select, All, Bool-cases, inl, inr, ◌⊎◌, ◌≢◌, str_eq, eq_iff,
}
use spot_instance_training_o.Base.{dashed_split, decimal-same_width}
use spot_instance_training_o.Base.{decimal_ℤ}
use spot_instance_training_o.Api.Compute.{Instance}
use spot_instance_training_o.Api.Template.{InstanceTemplate}
use spot_instance_training_o.Api.Training.{SpotInstanceJob}
use spot_instance_training_o.Cluster.Errors.{Result, ok, err, second}
use spot_instance_training_o.Cluster.Prog.{World}
use spot_instance_training_o.Cluster.Cloud.{Cloud}
use spot_instance_training_o.Cluster.Hoare.{Yields, Delivers, Keeps-then, Keeps-ask, Ensures-pure}
use spot_instance_training_o.Gcp.Provisioner.{Provisioner, list_instances_by_prefix}
use spot_instance_training_o.TrainingController.Instances.{instance_name}

-- The same in front of two texts can be left out.
same_front :
    (a b x y rest : String)
    → append (append a (append "-" (append b (append "-" x)))) rest
      ≡ append a (append "-" (append b (append "-" y)))
    → append x rest ≡ y
same_front a b x y rest h =
    append_cancel_left "-" _ _
      (append_cancel_left b _ _ (append_cancel_left "-" _ _ (append_cancel_left a _ _ (moved ∙ h))))
  where
    moved :
        append a (append "-" (append b (append "-" (append x rest))))
        ≡ append (append a (append "-" (append b (append "-" x)))) rest
    moved = rw (append_assoc, append_assoc, append_assoc, append_assoc) refl

numbers-prefix :
    (a b : String) (i j n n' k : ℕ)
    → k ≤ n
    → n' < k * 10
    → starts_with
        (append a
          (append "-" (append b (append "-" (append (decimal j) (append "-" (decimal n')))))))
        (append a
          (append "-" (append b (append "-" (append (decimal i) (append "-" (decimal n)))))))
      ≡ true
    → (i ≡ j) × (n ≡ n')
numbers-prefix a b i j n n' k low high h =
    let (rest, e) = (starts_with_iff _ _).0 h in
    let behind = same_front a b _ _ rest e in
    let (same, left) = dashed_split i j (append (decimal n) rest) (decimal n') (
      sym (
        append_assoc (decimal i) (append "-" (decimal n)) rest
        ∙ ap (append (decimal i)) (append_assoc "-" (decimal n) rest))
      ∙ behind) in
    (same, decimal-same_width n n' k rest (sym left) low high)

instance_name-prefix :
    (sj : SpotInstanceJob) (template : InstanceTemplate) (i j now now' : ℕ)
    → 1_000_000_000 ≤ now / second
    → now' / second < 10_000_000_000
    → starts_with (instance_name sj template (pos j) now') (instance_name sj template (pos i) now)
      ≡ true
    → (i ≡ j) × (now / second ≡ now' / second)
unfolding decimal_ℤ
instance_name-prefix sj template i j now now' low high h =
    numbers-prefix sj.meta.name template.meta.name i j (now / second) (now' / second) 1_000_000_000
      low high h

-- None of the VMs has the name.
abbrev pub NoneNamed : String → Result (List Instance) → Type 0
NoneNamed name (err e) = Unit
NoneNamed name (ok vms) = All (λ vm. str_eq vm.name name ≡ false) vms

module _ (prefix name : String) (apart : starts_with name prefix ≡ true → ⊥) where
  select-NoneNamed :
      (vms : List Instance)
      → All (λ vm. str_eq vm.name name ≡ false) (select (λ vm. starts_with vm.name prefix) vms)
  select-NoneNamed [] = tt
  select-NoneNamed (vm ∷ vms) = elim (Bool-cases (starts_with vm.name prefix)) [
    | inr other ↦ rw other (select-NoneNamed vms)
    | inl found ↦ rw found (
      elim (Bool-cases (str_eq vm.name name)) [
        | inr differs ↦ differs
        | inl same ↦
            absurd (
              apart (subst (λ n. starts_with n prefix ≡ true) ((eq_iff vm.name name).0 same) found))
      ],
      select-NoneNamed vms,
    )
  ]

  list_instances_by_prefix-Delivers :
      {C S W : Type 0} (cloud : Cloud C S W) (p : Provisioner S) (zone : String)
      → Delivers
          (λ t. Unit)
          (list_instances_by_prefix cloud p zone prefix)
          (λ r t. NoneNamed name r)
  unfolding list_instances_by_prefix
  list_instances_by_prefix-Delivers cloud p zone = Keeps-then (Keeps-ask _) elim [
    | err e ↦ Ensures-pure _ (λ t h. tt)
    | ok items ↦ Ensures-pure _ (λ t h. select-NoneNamed items)
  ]

-- Two names that the controller gives to instances of the same training job and the same template, of
-- the indices `i` and `j`, at times whose seconds have ten digits, as those from September 2001 to
-- November 2286 do, where the indices or the seconds differ: `ListInstancesByPrefix` with the first name
-- returns, whatever the cloud answers, and none of the VMs that it answers with has the second name.
pub list_instances_by_prefix-NoneNamed :
    {C S W : Type 0} (cloud : Cloud C S W) (p : Provisioner S) (zone : String)
    (sj : SpotInstanceJob) (template : InstanceTemplate) (i j now now' : ℕ) (w : World W)
    → 1_000_000_000 ≤ now / second
    → now' / second < 10_000_000_000
    → (i ≢ j) ⊎ (now / second ≢ now' / second)
    → Yields
        (list_instances_by_prefix cloud p zone (instance_name sj template (pos i) now) w)
        (λ r t. NoneNamed (instance_name sj template (pos j) now') r)
list_instances_by_prefix-NoneNamed cloud p zone sj template i j now now' w low high differ =
    (list_instances_by_prefix-Delivers (instance_name sj template (pos i) now)
        (instance_name sj template (pos j) now')
        (λ found.
          let (same, same_time) = instance_name-prefix sj template i j now now' low high found in
          elim differ [ inl index ↦ index same | inr time ↦ time same_time ])
        cloud p zone).at
      w tt
