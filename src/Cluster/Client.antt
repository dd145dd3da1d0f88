-- ===== src/Cluster/Client.antt =====
-- What the operator asks of the Kubernetes API, the event recorder and the clock: operations on an
-- unknown state `W` of the world. `S` stands for `metav1.LabelSelector` and `P` for the selectors
-- that it is compiled to. `none` in place of an error is nil.
use kovern.Prelude.{List, Option}
use kovern.Prelude.Text.{Text}
use kovern.Prelude.Result.{Result}
use kovern.Time.{Time}
use kovern.Api.{LivelockPolicy}
use kovern.Cluster.{Pod, ReplicaSet, Deployment}

pub record Client (W S P : Type 0) : Type 0 where
  pub now : W → Time × W
  pub list_policies : W → Result (List (LivelockPolicy S)) × W
  -- `metav1.LabelSelectorAsSelector`
  pub as_selector : S → Result P
  pub list_pods : Text → P → W → Result (List Pod) × W
  -- `Delete` with a grace period of 0 seconds.
  pub delete_pod : Pod → W → Option Text × W
  pub get_replica_set : Text → Text → W → Result ReplicaSet × W
  pub get_deployment : Text → Text → W → Result Deployment × W
  pub update_deployment : Deployment → W → Option Text × W
  pub update_status : LivelockPolicy S → W → Option Text × W
  -- `Eventf` with the type `Warning`: the object, the reason and the message.
  pub warn : LivelockPolicy S → Text → Text → W → W
