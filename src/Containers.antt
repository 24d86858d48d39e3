-- ===== src/Containers.antt =====
-- internal/containers/runtime.go: what the agent knows of a container.
pub mod Docker
use deploy_os.Base.{String, not, List}
use deploy_os.Go.Errors.{Sentinel}
use deploy_os.Go.Integer.{ℤ}

abbrev pub err_container_not_found : Sentinel
err_container_not_found = record {
  name = "containers.ErrContainerNotFound";
  text = "container not found";
}

pub record Container : Type 0 where
  pub id : String
  pub name : String
  pub image : String
  pub status : String
  pub state : String
  pub created : ℤ

pub record Mount : Type 0 where
  pub source : String
  pub destination : String
  pub mode : String

pub record Port : Type 0 where
  pub container_port : ℤ
  pub host_port : ℤ
  pub protocol : String

pub record ContainerDetails : Type 0 where
  pub container : Container
  pub command : List String
  pub env : List String
  pub mounts : List Mount
  pub ports : List Port
  pub networks : List String
  pub restart_count : ℤ
