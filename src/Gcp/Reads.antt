-- ===== src/Gcp/Reads.antt =====
-- The parts of the cloud's client that write nothing.
use spot_instance_training_o.Base.{String}
use spot_instance_training_o.Cluster.Errors.{ok, err}
use spot_instance_training_o.Cluster.Events.{Trace}
use spot_instance_training_o.Cluster.Cloud.{Cloud}
use spot_instance_training_o.Cluster.Hoare.{
  Preserves, Keeps-pure, Keeps-ask, Keeps-then, keeps_rules,
}
use spot_instance_training_o.Gcp.Provisioner.{
  Provisioner, new_provisioner, get_instance, list_instances_by_prefix,
}

module _ {C S W : Type 0} (cloud : Cloud C S W) {Z : Type 0} (P : Trace → Type 0) where
  pub new_provisioner-Keeps :
      (json project : String) → Preserves Z P (new_provisioner cloud json project)
  unfolding new_provisioner
  new_provisioner-Keeps json project = Keeps-then (Keeps-ask _) elim [
    | err e ↦ Keeps-pure _
    | ok c ↦ Keeps-then (Keeps-ask _) elim [ err e ↦ Keeps-pure _ | ok s ↦ Keeps-pure _ ]
  ]

  pub get_instance-Keeps :
      (p : Provisioner S) (zone name : String) → Preserves Z P (get_instance cloud p zone name)
  unfolding get_instance
  get_instance-Keeps p zone name = search keeps_rules

  pub list_instances_by_prefix-Keeps :
      (p : Provisioner S) (zone prefix : String)
      → Preserves Z P (list_instances_by_prefix cloud p zone prefix)
  unfolding list_instances_by_prefix
  list_instances_by_prefix-Keeps p zone prefix =
      Keeps-then (Keeps-ask _) elim [ err e ↦ Keeps-pure _ | ok items ↦ Keeps-pure _ ]
