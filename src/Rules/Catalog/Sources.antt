-- ===== src/Rules/Catalog/Sources.antt =====
-- internal/rules/catalog.go: the guidance that the rules cite, and the operating systems.
use clusterproof.Prelude.{List, [], ◌∷◌, String}
use clusterproof.Rules.Catalog.{SourceReference, aligned, supplemental, os_linux, os_windows}

abbrev pub pss_source : SourceReference
pss_source = record {
  name = "Kubernetes Pod Security Standards";
  version = "v1.36";
  url = "https://kubernetes.io/docs/concepts/security/pod-security-standards/";
  relationship = aligned;
}

abbrev pub security_checklist_source : SourceReference
security_checklist_source = record {
  name = "Kubernetes Security Checklist";
  version = "v1.36";
  url = "https://kubernetes.io/docs/concepts/security/security-checklist/";
  relationship = supplemental;
}

abbrev pub application_checklist_source : SourceReference
application_checklist_source = record {
  name = "Kubernetes Application Security Checklist";
  version = "v1.36";
  url = "https://kubernetes.io/docs/concepts/security/application-security-checklist/";
  relationship = supplemental;
}

abbrev pub psa_source : SourceReference
psa_source = record {
  name = "Kubernetes Pod Security Admission";
  version = "v1.36";
  url = "https://kubernetes.io/docs/concepts/security/pod-security-admission/";
  relationship = aligned;
}

abbrev pub rbac_source : SourceReference
rbac_source = record {
  name = "Kubernetes RBAC Good Practices";
  version = "v1.36";
  url = "https://kubernetes.io/docs/concepts/security/rbac-good-practices/";
  relationship = aligned;
}

abbrev pub network_policy_source : SourceReference
network_policy_source = record {
  name = "Kubernetes Network Policies";
  version = "v1.36";
  url = "https://kubernetes.io/docs/concepts/services-networking/network-policies/";
  relationship = aligned;
}

abbrev pub slsa_source : SourceReference
slsa_source = record {
  name = "SLSA Specification";
  version = "v1.2";
  url = "https://slsa.dev/spec/v1.2/";
  relationship = supplemental;
}

abbrev pub sigstore_source : SourceReference
sigstore_source = record {
  name = "Sigstore Cosign Verification";
  version = "v2";
  url = "https://docs.sigstore.dev/cosign/verifying/verify/";
  relationship = supplemental;
}

abbrev pub all_os : List String
all_os = os_linux ∷ os_windows ∷ []

abbrev pub linux_only : List String
linux_only = os_linux ∷ []
