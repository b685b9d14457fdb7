-- ===== src/Cluster/Cloud.antt =====
-- The Go libraries for Google's credentials and Compute Engine: parameters of the model.
use spot_instance_training_o.Base.{String, Option, List}
use spot_instance_training_o.Api.Compute.{Instance, Operation}
use spot_instance_training_o.Cluster.Errors.{Error, Result}

-- `C` are credentials, `S` is a compute service. Instances are named by project, zone and name.
pub record Cloud (C S W : Type 0) : Type 0 where
  pub credentials_from_json : String → W → Result C × W
  pub new_service : C → W → Result S × W
  pub insert_instance : S → String → String → Instance → W → Result Operation × W
  pub get_instance : S → String → String → String → W → Result Instance × W
  pub delete_instance : S → String → String → String → W → Result Operation × W
  pub list_instances : S → String → String → W → Result (List Instance) × W
  pub get_operation : S → String → String → String → W → Result Operation × W
  -- `ctx.Done()` against a timer of two seconds: an error if the context ended first
  pub wait_tick : W → Option Error × W
  -- `compute.CloudPlatformScope`
  pub cloud_platform_scope : String
