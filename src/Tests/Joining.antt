-- ===== src/Tests/Joining.antt =====
-- A VM that accepts connections over SSH at once.
use spot_instance_training_o.Base.{String, none, false, [], ◌∷◌}
use spot_instance_training_o.Api.Compute.{Instance}
use spot_instance_training_o.Cluster.Errors.{ok}
use spot_instance_training_o.Cluster.Hoare.{Yields}
use spot_instance_training_o.Gcp.NodeJoiner.{
  Ssh, generate_kubeadm_join_command, join_node_to_cluster,
}
use spot_instance_training_o.Gcp.NodeJoiner.Joins.{Joins, join_node_to_cluster-Joins}
use spot_instance_training_o.Tests.Objects.{vm_of}
use spot_instance_training_o.Tests.Clouds.{start}

abbrev open_ssh : Ssh (Unit {0}) (Unit {0}) (Unit {0})
open_ssh = record {
  dial = λ a s. (ok tt, s);
  close = λ c s. (tt, s);
  new_session = λ c s. (ok tt, s);
  close_session = λ c s. (tt, s);
  run = λ c command s. ((ok tt, ""), s);
  context_error = λ s. (none, s);
  sleep = λ s. (tt, s);
  timed_out = λ s. (false, s);
}

abbrev reachable : Instance
reachable = record (vm_of "bert-0" "RUNNING") {
  network_interfaces =
      record {
        network_ip = "10.0.0.7";
        access_configs =
            record { name = "External NAT"; type = "ONE_TO_ONE_NAT"; nat_ip = "203.0.113.7" } ∷ [];
      }
      ∷ [];
}

abbrev command : String
command = generate_kubeadm_join_command "10.0.0.1:6443" "abc.def" "sha256:1"

join_node_to_cluster-Joins_example :
    Yields
      (join_node_to_cluster open_ssh reachable command start)
      (Joins open_ssh [] reachable command)
join_node_to_cluster-Joins_example = join_node_to_cluster-Joins open_ssh reachable command start
