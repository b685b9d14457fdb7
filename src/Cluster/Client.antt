-- ===== src/Cluster/Client.antt =====
-- controller-runtime's `client.Client`, `controllerutil` and the clock: parameters of the model.
-- Each method answers from the state of its surroundings and may change that state in any way, so
-- what others do between two calls is covered.
use spot_instance_training_o.Base.{ℕ, ◌≡◌, Bool, true, false, String, List, Option, ℤ}
use spot_instance_training_o.Api.Meta.{ObjectMeta, Labels}
use spot_instance_training_o.Api.Template.{InstanceTemplate}
use spot_instance_training_o.Api.Instance.{ProvisionedInstance}
use spot_instance_training_o.Api.Training.{SpotInstanceJob}
use spot_instance_training_o.Api.Kube.{Job, Pod, Node, Secret, Checkpoint, NewCheckpoint}
use spot_instance_training_o.Cluster.Errors.{Result}

-- `Get` takes a namespace and a name, `List` a namespace and the labels to match. `Update`,
-- `Status().Update` and `Create` answer with the object as the server returned it, which
-- controller-runtime writes into the caller's object.
pub record Client (W : Type 0) : Type 0 where
  pub get_template : String → String → W → Result InstanceTemplate × W
  pub get_secret : String → String → W → Result Secret × W
  pub get_node : String → W → Result Node × W
  pub delete_node : Node → W → Result (Unit {0}) × W
  pub get_instance : String → String → W → Result ProvisionedInstance × W
  pub list_instances : String → Labels → W → Result (List ProvisionedInstance) × W
  pub create_instance : ProvisionedInstance → W → Result ProvisionedInstance × W
  pub update_instance : ProvisionedInstance → W → Result ProvisionedInstance × W
  pub update_instance_status : ProvisionedInstance → W → Result ProvisionedInstance × W
  pub delete_instance : ProvisionedInstance → W → Result (Unit {0}) × W
  pub get_training : String → String → W → Result SpotInstanceJob × W
  pub update_training : SpotInstanceJob → W → Result SpotInstanceJob × W
  pub update_training_status : SpotInstanceJob → W → Result SpotInstanceJob × W
  pub get_job : String → String → W → Result Job × W
  pub list_jobs : String → Labels → W → Result (List Job) × W
  pub create_job : Job → W → Result Job × W
  pub delete_job : Job → W → Result (Unit {0}) × W
  pub list_pods : String → Labels → W → Result (List Pod) × W
  pub list_checkpoints : String → Labels → W → Result (List Checkpoint) × W
  pub create_checkpoint : NewCheckpoint → W → Result (Unit {0}) × W
  pub delete_checkpoint : Checkpoint → W → Result (Unit {0}) × W
  -- `time.Now()`, in nanoseconds
  pub now : W → ℕ × W
  -- The next of the two channels of a `select`: the timeout, or else the ticker
  pub timed_out : W → Bool × W

-- `controllerutil`: the finalizers of an object, and the reference to its controller, which is
-- refused where the object has another. `parse_time` is `time.Parse(time.RFC3339, s)`, in nanoseconds
-- from the Unix epoch; `none` is its error.
pub record Util : Type 0 where
  pub contains_finalizer : ObjectMeta → String → Bool
  pub add_finalizer : ObjectMeta → String → ObjectMeta
  pub remove_finalizer : ObjectMeta → String → ObjectMeta
  pub set_controller_reference : ObjectMeta → ObjectMeta → Result ObjectMeta
  pub parse_time : String → Option ℤ

-- What the package documents of its finalizer functions.
pub record FinalizerLaws (u : Util) : Type 0 where
  pub added : (m : ObjectMeta) (f : String) → u.contains_finalizer (u.add_finalizer m f) f ≡ true
  pub removed :
      (m : ObjectMeta) (f : String) → u.contains_finalizer (u.remove_finalizer m f) f ≡ false
