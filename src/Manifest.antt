-- ===== src/Manifest.antt =====
-- internal/manifest/types.go: the normalised Kubernetes objects. Go's pointers are `Option`, its
-- integers ℤ, its maps association lists.
use Prim.Native.String.{◌++◌ as append}
use clusterproof.Prelude.{ℤ, String, Bool, Option, List, ◌++◌, ◌==◌, if◌then◌else◌}
use clusterproof.Maps.{Map}
use clusterproof.Model.{Location}

pub record Seccomp : Type 0 where
  pub type : String

pub record AppArmor : Type 0 where
  pub type : String

pub record SeLinux : Type 0 where
  pub user : String
  pub role : String
  pub type : String

pub record WindowsOpts : Type 0 where
  pub host_process : Option Bool

pub record Sysctl : Type 0 where
  pub name : String
  pub value : String

pub record Capabilities : Type 0 where
  pub add : List String
  pub drop : List String

pub record SecurityContext : Type 0 where
  pub privileged : Option Bool
  pub allow_privilege_escalation : Option Bool
  pub run_as_non_root : Option Bool
  pub run_as_user : Option ℤ
  pub read_only_root_filesystem : Option Bool
  pub proc_mount : Option String
  pub seccomp_profile : Seccomp
  pub app_armor_profile : Option AppArmor
  pub se_linux_options : Option SeLinux
  pub windows_options : Option WindowsOpts
  pub sysctls : List Sysctl
  pub capabilities : Capabilities

pub record ContainerPort : Type 0 where
  pub container_port : ℤ
  pub host_port : ℤ

pub record Container : Type 0 where
  pub name : String
  pub image : String
  pub ports : List ContainerPort
  pub security_context : SecurityContext

pub record HostPath : Type 0 where
  pub path : String
  pub type : String

pub record Volume : Type 0 where
  pub name : String
  pub host_path : Option HostPath
  pub types : List String

pub record PodOs : Type 0 where
  pub name : String

pub is_windows : PodOs → Bool
is_windows o = o.name == "windows"

pub record PodSpec : Type 0 where
  pub host_network : Bool
  pub host_pid : Bool
  pub host_ipc : Bool
  pub automount_service_account_token : Option Bool
  pub service_account_name : String
  pub os : PodOs
  pub security_context : SecurityContext
  pub containers : List Container
  pub init_containers : List Container
  pub ephemeral_containers : List Container
  pub volumes : List Volume

unfoldable pub all_containers : PodSpec → List Container
all_containers p = p.containers ++ (p.init_containers ++ p.ephemeral_containers)

pub record Workload : Type 0 where
  pub api_version : String
  pub kind : String
  pub namespace : String
  pub name : String
  pub owner_kinds : List String
  pub pod_labels : Map String
  pub location : Location
  pub pod_spec : PodSpec

-- The empty namespace stands for `default`.
pub or_default : String → String
or_default namespace = if namespace == "" then "default" else namespace

unfoldable pub workload_target : Workload → String
unfolding or_default
workload_target w = append (or_default w.namespace) (append "/" (append w.kind (append "/" w.name)))

pub record NetworkPolicy : Type 0 where
  pub namespace : String
  pub name : String
  pub selects_all_pods : Bool
  pub pod_selector_labels : Map String
  pub policy_types : List String
  pub has_ingress_rules : Bool
  pub has_egress_rules : Bool
  pub location : Location

pub record Service : Type 0 where
  pub namespace : String
  pub name : String
  pub type : String
  pub selector : Map String
  pub location : Location

pub record Namespace : Type 0 where
  pub name : String
  pub labels : Map String
  pub location : Location

pub record RbacRule : Type 0 where
  pub api_groups : List String
  pub resources : List String
  pub verbs : List String

pub record RbacRole : Type 0 where
  pub kind : String
  pub namespace : String
  pub name : String
  pub rules : List RbacRule
  pub aggregates : Bool
  pub location : Location

pub record RbacSubject : Type 0 where
  pub kind : String
  pub namespace : String
  pub name : String

pub record RbacBinding : Type 0 where
  pub kind : String
  pub namespace : String
  pub name : String
  pub role_kind : String
  pub role_name : String
  pub subjects : List RbacSubject
  pub location : Location
