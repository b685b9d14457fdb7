-- ===== src/Cluster/Env.antt =====
-- All that a controller calls, and how many rounds a wait for a cloud operation may take before the
-- model gives up on it.
use spot_instance_training_o.Base.{ℕ}
use spot_instance_training_o.Cluster.Client.{Client, Util}
use spot_instance_training_o.Cluster.Cloud.{Cloud}

pub record Env (C S W : Type 0) : Type 0 where
  pub client : Client W
  pub util : Util
  pub cloud : Cloud C S W
  pub patience : ℕ
