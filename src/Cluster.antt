-- ===== src/Cluster.antt =====
-- The Kubernetes objects that the operator reads, with the fields that its code names.
pub mod Client
use kovern.Prelude.{Bool, List, Option}
use kovern.Prelude.Int.{ℤ}
use kovern.Prelude.Text.{Text}

pub record OwnerReference : Type 0 where
  pub kind : Text
  pub name : Text

pub data PodPhase : Type 0 where
  running other_phase : PodPhase

pub record Pod : Type 0 where
  pub namespace : Text
  pub name : Text
  pub service_account_name : Text
  pub owner_references : List OwnerReference
  pub phase : PodPhase

pub record ReplicaSet : Type 0 where
  pub namespace : Text
  pub name : Text
  pub owner_references : List OwnerReference

pub record Deployment : Type 0 where
  pub namespace : Text
  pub name : Text
  pub replicas : Option ℤ
