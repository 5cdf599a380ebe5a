-- ===== src/Cluster/Accepted.antt =====
-- internal/cluster/scopes.go: which collections succeed.
use clusterproof.Prelude.{String, Bool, true, not, is_none, Result, ok, err}
use clusterproof.Cluster.{Snapshot, scope_resources, classify}

abbrev pub is_known : String → Bool
is_known scope = not (is_none (scope_resources scope))

-- An outcome that does not end the collection.
abbrev pub is_tolerated : Result String Snapshot → Bool
is_tolerated (ok snapshot) = true
is_tolerated (err message) = not (is_none (classify message))
