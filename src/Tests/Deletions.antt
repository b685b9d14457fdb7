-- ===== src/Tests/Deletions.antt =====
-- The deletion of a VM whose operation is done at the first look.
use spot_instance_training_o.Base.{[]}
use spot_instance_training_o.Cluster.Errors.{ok}
use spot_instance_training_o.Cluster.Cloud.{Cloud}
use spot_instance_training_o.Cluster.Hoare.{Yields}
use spot_instance_training_o.Gcp.Provisioner.{delete_instance}
use spot_instance_training_o.Gcp.Confirmed.{Deletes, delete_instance-Deletes}
use spot_instance_training_o.Tests.Objects.{vm_of}
use spot_instance_training_o.Tests.Clouds.{cloud_of, cloud_of-Settling, start, provisioner}

abbrev prompt_cloud : Cloud (Unit {0}) (Unit {0}) (Unit {0})
prompt_cloud = cloud_of [] (ok (vm_of "vm-0" "RUNNING"))

delete_instance-Deletes_example :
    Yields
      (delete_instance prompt_cloud 10 provisioner "lab" "zone-a" "vm-0" start)
      (Deletes prompt_cloud provisioner "lab" "zone-a" "vm-0" [])
delete_instance-Deletes_example =
    delete_instance-Deletes prompt_cloud provisioner "lab" "zone-a" "vm-0" 10 start
      (cloud_of-Settling [] (ok (vm_of "vm-0" "RUNNING")))
