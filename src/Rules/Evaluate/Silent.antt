-- ===== src/Rules/Evaluate/Silent.antt =====
-- internal/rules/rules.go: when a part of the rules reports nothing.
use Prim.Native.String.{◌++◌ as append}
use clusterproof.Prelude.{
  ◌≡◌, refl, is_zero, int_text, String, Bool, false, not, ◌&&◌, ◌||◌, Option, none, some, List, [],
  ◌∷◌, ◌==◌, arith, all, if◌then◌else◌,
}
use clusterproof.Model.{Finding}
use clusterproof.Manifest.{Workload, Volume, Sysctl, ContainerPort}
use clusterproof.Rules.Finding.{emit}
use clusterproof.Rules.Pod.{emit_texts, emit_risk, volume_findings}
use clusterproof.Rules.Risks.{
  elem, is_allowed_capability, restricted_volume_types, safe_sysctls, append_new, volume_violations,
  violations_in, unsafe_in, unexpected_in, host_ports_in, sysctl_name,
}
use clusterproof.Sorting.Empty.{is_empty}
use clusterproof.Rules.Evaluate.Hardened.{unless_given, sysctl_allowed}

pub is_empty-emit : (b : Bool) (f : Finding) → is_empty (emit b f) ≡ not b
unfolding is_empty
is_empty-emit b f = ground arith

pub is_empty-emit_texts :
    (f : List String → Finding) (xs : List String) → is_empty (emit_texts f xs) ≡ is_empty xs
unfolding is_empty
is_empty-emit_texts f [] = refl
is_empty-emit_texts f (x ∷ xs) = refl

pub is_empty-emit_risk :
    {A : Type 0} (b : Bool) (f : A → Finding) (o : Option A)
    → is_empty (emit_risk b f o) ≡ (not b || unless_given (λ _. false) o)
unfolding is_empty
is_empty-emit_risk b f none = ground arith
is_empty-emit_risk b f (some a) = ground arith

pub is_empty-volume_findings :
    (w : Workload) (vs : List Volume)
    → is_empty (volume_findings w vs) ≡ all (λ v. unless_given (λ _. false) v.host_path) vs
unfolding is_empty volume_findings
is_empty-volume_findings w [] = refl
is_empty-volume_findings w (v ∷ vs) = ground (arith, is_empty-volume_findings w vs)

-- One step of a loop that appends an entry unless a test holds.
is_empty-unless :
    (b : Bool) (seen : List String) (x : String)
    → is_empty (if b then seen else append_new seen x) ≡ (is_empty seen && b)
unfolding is_empty
is_empty-unless b [] x = ground arith
is_empty-unless b (y ∷ seen) x = ground arith

-- The steps that follow.
is_empty-loop :
    (b rest : Bool) (seen : List String) (x : String) (result : Bool)
    → result ≡ (is_empty (if b then seen else append_new seen x) && rest)
    → result ≡ (is_empty seen && (b && rest))
is_empty-loop b rest seen x result h = ground (arith, h, is_empty-unless b seen x)

is_empty-volume_violations :
    (name : String) (seen ts : List String)
    → is_empty (volume_violations name seen ts)
      ≡ (is_empty seen && all (λ t. t == "hostPath" || elem t restricted_volume_types) ts)
unfolding volume_violations
is_empty-volume_violations name seen [] = ground arith
is_empty-volume_violations name seen (t ∷ ts) =
    is_empty-loop (t == "hostPath" || elem t restricted_volume_types) _ seen
      (append name (append ":" t)) _
      (is_empty-volume_violations name
        (if t == "hostPath" || elem t restricted_volume_types
          then seen
          else append_new seen (append name (append ":" t)))
        ts)

pub is_empty-violations_in :
    (seen : List String) (vs : List Volume)
    → is_empty (violations_in seen vs) ≡ (
        is_empty seen
        && all (λ v. all (λ t. t == "hostPath" || elem t restricted_volume_types) v.types) vs)
unfolding violations_in
is_empty-violations_in seen [] = ground arith
is_empty-violations_in seen (v ∷ vs) = ground (
  arith,
  is_empty-violations_in (volume_violations v.name seen v.types) vs,
  is_empty-volume_violations v.name seen v.types,
)

pub is_empty-unsafe_in :
    (seen : List String) (ss : List Sysctl)
    → is_empty (unsafe_in seen ss) ≡ (is_empty seen && all sysctl_allowed ss)
unfolding unsafe_in sysctl_allowed
is_empty-unsafe_in seen [] = ground arith
is_empty-unsafe_in seen (s ∷ ss) =
    is_empty-loop (elem (sysctl_name s) safe_sysctls) _ seen (sysctl_name s) _ (
      is_empty-unsafe_in
        (if elem (sysctl_name s) safe_sysctls then seen else append_new seen (sysctl_name s)) ss)

pub is_empty-unexpected_in :
    (cs : List String) → is_empty (unexpected_in cs) ≡ all is_allowed_capability cs
unfolding is_empty unexpected_in
is_empty-unexpected_in [] = refl
is_empty-unexpected_in (c ∷ cs) = ground (arith, is_empty-unexpected_in cs)

pub is_empty-host_ports_in :
    (seen : List String) (ps : List ContainerPort)
    → is_empty (host_ports_in seen ps) ≡ (is_empty seen && all (λ p. is_zero p.host_port) ps)
unfolding host_ports_in
is_empty-host_ports_in seen [] = ground arith
is_empty-host_ports_in seen (p ∷ ps) =
    is_empty-loop (is_zero p.host_port) _ seen (int_text p.host_port) _ (
      is_empty-host_ports_in
        (if is_zero p.host_port then seen else append_new seen (int_text p.host_port)) ps)
