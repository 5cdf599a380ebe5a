-- ===== src/Examples/Collections.antt =====
-- The collection of two scopes, one of which is forbidden, and a capped buffer.
use clusterproof.Prelude.{
  ℕ, ◌<◌, String, ◌≡◌, refl, List, [], ◌∷◌, ◌==◌, length, ltb, any, Result, ok, err, if◌then◌else◌,
}
use clusterproof.Files.{take}
use clusterproof.Text.Chars.{to_lower}
use clusterproof.Text.Search.{contains, has_prefix}
use clusterproof.Cluster.{
  Options, Snapshot, ScopedResult, new_capped_buffer, nothing_collected, add_collected, add_partial,
  collect_scopes, check_scopes, scope_resources, scope_args, namespace_args, classify, collect_from,
  add_outcome,
}
use clusterproof.Cluster.Capped.{write_all, write_all-joined}
use clusterproof.Cluster.Scopes.{Reported, collect_scopes-Reported}
use clusterproof.Examples.{shop}

write_all-joined_example :
    write_all 3 new_capped_buffer ((1 ∷ 2 ∷ []) ∷ (3 ∷ 4 ∷ []) ∷ []) ≡ record {
      buffer = take {A = ℕ} 3 (1 ∷ 2 ∷ 3 ∷ 4 ∷ []);
      exceeded = ltb 3 (length {A = ℕ} (1 ∷ 2 ∷ 3 ∷ 4 ∷ []));
    }
write_all-joined_example = write_all-joined 3 ((1 ∷ 2 ∷ []) ∷ (3 ∷ 4 ∷ []) ∷ [])

abbrev snapshot : Snapshot
snapshot = record nothing_collected.result { workloads = shop ∷ [] }

-- kubectl may read workloads, but no namespaces.
abbrev run : List String → Result String Snapshot
run args =
    if any (λ arg. arg == "namespaces") args then err "namespaces is forbidden" else ok snapshot

abbrev options : Options
options = record { kubeconfig = "config"; context = ""; namespace = ""; timeout = "30s" }

abbrev outcome : ScopedResult
outcome =
    add_partial (add_collected nothing_collected "workloads" snapshot) "namespaces" "denied"
      "namespaces is forbidden"

collected : collect_scopes run options ("workloads" ∷ "namespaces" ∷ []) ≡ ok outcome
unfolding collect_scopes collect_from add_outcome check_scopes scope_resources scope_args
    namespace_args classify to_lower contains has_prefix
collected = refl

collect_scopes-Reported_example :
    (0 < 2) × Reported run options ("workloads" ∷ "namespaces" ∷ []) nothing_collected outcome
collect_scopes-Reported_example =
    collect_scopes-Reported run options ("workloads" ∷ "namespaces" ∷ []) outcome collected

abbrev twice : List String
twice = "workloads" ∷ "workloads" ∷ []
