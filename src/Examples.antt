-- ===== src/Examples.antt =====
-- Inputs on which the theorems are tried out.
pub mod Bundles
pub mod Imports
pub mod Scans
pub mod Workloads
pub mod Graphs
pub mod Images
pub mod Policies
pub mod Reports
pub mod Collections
use mathlib.Core.List.Perm
use mathlib.Core.List.{reverse, reverse_perm}
use clusterproof.Prelude.{ℕ, pos, String, true, false, none, some, List, [], ◌∷◌}
use clusterproof.Maps.{Ranging}
use clusterproof.Model.{Location, Finding, severity_high}
use clusterproof.Manifest.{
  SecurityContext, Container, PodSpec, Workload, Namespace, NetworkPolicy, Service, RbacRule,
  RbacRole, RbacBinding,
}

-- Maps visited in the order of their association lists.
abbrev pub in_order : Ranging
in_order = record { range = λ xs. xs; range_perm = λ xs. Perm.refl xs }

-- Maps visited backwards.
abbrev pub backwards : Ranging
backwards = record { range = reverse; range_perm = λ xs. reverse_perm xs }

abbrev somewhere : Location
somewhere = record { path = "app.yaml"; document = 1; line = 1; resource = ""; container = "" }

abbrev no_context : SecurityContext
no_context = record {
  privileged = none;
  allow_privilege_escalation = none;
  run_as_non_root = none;
  run_as_user = none;
  read_only_root_filesystem = none;
  proc_mount = none;
  seccomp_profile = record { type = "" };
  app_armor_profile = none;
  se_linux_options = none;
  windows_options = none;
  sysctls = [];
  capabilities = record { add = []; drop = [] };
}

abbrev web : Container
web = record {
  name = "web";
  image = "nginx:latest";
  ports = record { container_port = pos 80; host_port = pos 8080 } ∷ [];
  security_context = record no_context { privileged = some true };
}

abbrev pub shop : Workload
shop = record {
  api_version = "apps/v1";
  kind = "Deployment";
  namespace = "";
  name = "shop";
  owner_kinds = [];
  pod_labels = ("app", "shop") ∷ [];
  location = somewhere;
  pod_spec = record {
    host_network = true;
    host_pid = false;
    host_ipc = false;
    automount_service_account_token = none;
    service_account_name = "";
    os = record { name = "" };
    security_context = no_context;
    containers = web ∷ [];
    init_containers = [];
    ephemeral_containers = [];
    volumes =
        record {
          name = "logs";
          host_path = some (record { path = "/var/log"; type = "" });
          types = "hostPath" ∷ [];
        }
        ∷ [];
  };
}

abbrev pub team : Namespace
team = record {
  name = "team";
  labels =
      ("pod-security.kubernetes.io/enforce", "restricted")
      ∷ ("pod-security.kubernetes.io/audit", "baseline")
      ∷ [];
  location = somewhere;
}

abbrev pub gateway : Service
gateway = record {
  namespace = "default";
  name = "gateway";
  type = "LoadBalancer";
  selector = ("app", "shop") ∷ [];
  location = somewhere;
}

abbrev pub deny_ingress : NetworkPolicy
deny_ingress = record {
  namespace = "default";
  name = "deny";
  selects_all_pods = true;
  pod_selector_labels = [];
  policy_types = "Ingress" ∷ [];
  has_ingress_rules = false;
  has_egress_rules = false;
  location = somewhere;
}

abbrev pub reader : RbacRole
reader = record {
  kind = "ClusterRole";
  namespace = "";
  name = "reader";
  rules =
      record {
        api_groups = "" ∷ [];
        resources = "secrets" ∷ "pods" ∷ [];
        verbs = "get" ∷ "create" ∷ [];
      }
      ∷ [];
  aggregates = false;
  location = somewhere;
}

abbrev pub readers : RbacBinding
readers = record {
  kind = "ClusterRoleBinding";
  namespace = "";
  name = "readers";
  role_kind = "ClusterRole";
  role_name = "reader";
  subjects = record { kind = "Group"; namespace = ""; name = "devs" } ∷ [];
  location = somewhere;
}

abbrev pub host_network_finding : Finding
host_network_finding = record {
  id = "CP-K8S-002";
  severity = severity_high;
  title = "Host namespace sharing enabled";
  description = "";
  remediation = "";
  source = "clusterproof";
  target = "default/Deployment/shop";
  location = somewhere;
  evidence = record { observed = "hostNetwork"; expected = "" };
  control_refs = [];
  external_refs = ("vulnerability", "CVE-2024-0001") ∷ ("purl", "pkg:oci/shop") ∷ [];
}
