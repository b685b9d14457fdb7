-- ===== src/Tests/Prefixes.antt =====
-- VMs whose names begin alike.
use spot_instance_training_o.Base.{pos, ℕ, [], ◌∷◌, arith, inl}
use spot_instance_training_o.Cluster.Errors.{ok}
use spot_instance_training_o.Cluster.Hoare.{Yields}
use spot_instance_training_o.Gcp.Provisioner.{list_instances_by_prefix}
use spot_instance_training_o.TrainingController.Instances.{instance_name}
use spot_instance_training_o.TrainingController.Instances.Adopted.{
  NoneNamed, list_instances_by_prefix-NoneNamed,
}
use spot_instance_training_o.Tests.Objects.{vm_of, training, template}
use spot_instance_training_o.Tests.Clouds.{cloud_of, start, provisioner}

abbrev made : ℕ
made = 1_740_412_345_000_000_000

abbrev later : ℕ
later = 1_740_412_346_000_000_000

-- Replica 1, and the replicas 1 and 11 of a second later.
list_instances_by_prefix-NoneNamed_example :
    Yields
      (list_instances_by_prefix
        (cloud_of
          (vm_of "bert-gpu-1-1740412345" "RUNNING"
            ∷ vm_of "bert-gpu-1-1740412346" "RUNNING"
            ∷ vm_of "bert-gpu-11-1740412346" "RUNNING"
            ∷ [])
          (ok (vm_of "bert-gpu-1-1740412345" "RUNNING")))
        provisioner
        "us-east1-b"
        (instance_name training template (pos 1) made)
        start)
      (λ r t. NoneNamed (instance_name training template (pos 11) later) r)
list_instances_by_prefix-NoneNamed_example =
    list_instances_by_prefix-NoneNamed
      (cloud_of
        (vm_of "bert-gpu-1-1740412345" "RUNNING"
          ∷ vm_of "bert-gpu-1-1740412346" "RUNNING"
          ∷ vm_of "bert-gpu-11-1740412346" "RUNNING"
          ∷ [])
        (ok (vm_of "bert-gpu-1-1740412345" "RUNNING")))
      provisioner "us-east1-b" training template 1 11 made later start (omega arith) (omega arith)
      (inl (λ e. absurd (omega (arith, e))))
