-- ===== src/Cluster/Scopes.antt =====
-- internal/cluster/scopes.go: what a successful collection reports of the scopes.
use mathlib.Core.List.{append_assoc}
use clusterproof.Prelude.{
  ◌<◌, String, ◌≡◌, refl, ap, subst, ◌∙◌, Bool, true, false, not, Option, none, some, List, [], ◌∷◌,
  ◌++◌, ◌==◌, arith, map, length, ltb, concat_map, Option-cases, inl, inr, Result, ok, err, refuse,
  >>=-eq-ok,
}
use clusterproof.Manifest.{Workload}
use clusterproof.Cluster.{
  Options, Snapshot, ScopeStatus, ScopedResult, scope_args, classify, status_of, check_scopes,
  collect_from, collect_scopes, add_outcome, add_collected, add_partial, nothing_collected,
  no_scope, clean_text,
}

abbrev succeeded : Result String Snapshot → Bool
succeeded (ok snapshot) = true
succeeded (err message) = false

abbrev workloads_in : Result String Snapshot → List Workload
workloads_in (ok snapshot) = snapshot.workloads
workloads_in (err message) = []

abbrev is_collected : ScopeStatus → Bool
is_collected s = s.status == "collected"

value_or : String → Option String → String
value_or d none = d
value_or d (some s) = s

same_status :
    (status found : String)
    → (status == "collected") ≡ false
    → some status ≡ some found
    → (found == "collected") ≡ false
unfolding value_or
same_status status found h e = subst (λ s. (s == "collected") ≡ false) (ap (value_or "") e) h

classify-other :
    (message status : String) → classify message ≡ some status → (status == "collected") ≡ false
unfolding classify
classify-other message status h =
    ground (arith, h, same_status "denied" status refl, same_status "absent" status refl)

-- What one outcome adds.
record Added (aggregate : ScopedResult) (scope : String) (outcome : Result String Snapshot)
    (next : ScopedResult) : Type 0 where
  names : map (λ s. s.scope) next.scopes ≡ map (λ s. s.scope) aggregate.scopes ++ scope ∷ []
  statuses :
      map is_collected next.scopes ≡ map is_collected aggregate.scopes ++ succeeded outcome ∷ []
  workloads : next.result.workloads ≡ aggregate.result.workloads ++ workloads_in outcome

map-append : {A B : Type 0} (f : A → B) (xs ys : List A) → map f (xs ++ ys) ≡ map f xs ++ map f ys
map-append f [] ys = refl
map-append f (x ∷ xs) ys = ap (λ r. f x ∷ r) (map-append f xs ys)

append_nil : {A : Type 0} (xs : List A) → xs ≡ xs ++ []
append_nil [] = refl
append_nil (x ∷ xs) = ap (λ r. x ∷ r) (append_nil xs)

add_collected-Added :
    (aggregate : ScopedResult) (scope : String) (snapshot : Snapshot)
    → Added aggregate scope (ok snapshot) (add_collected aggregate scope snapshot)
unfolding status_of
add_collected-Added aggregate scope snapshot = record {
  names = map-append (λ s. s.scope) aggregate.scopes (status_of scope "collected" "" ∷ []);
  statuses = map-append is_collected aggregate.scopes (status_of scope "collected" "" ∷ []);
  workloads = refl;
}

add_partial-Added :
    (aggregate : ScopedResult) (scope status message : String)
    → (status == "collected") ≡ false
    → Added aggregate scope (err message) (add_partial aggregate scope status message)
unfolding status_of
add_partial-Added aggregate scope status message h = record {
  names =
      map-append (λ s. s.scope) aggregate.scopes (status_of scope status (clean_text message) ∷ []);
  statuses =
      map-append is_collected aggregate.scopes (status_of scope status (clean_text message) ∷ [])
      ∙ ap (λ b. map is_collected aggregate.scopes ++ b ∷ []) h;
  workloads = append_nil aggregate.result.workloads;
}

add_outcome-Added :
    (aggregate : ScopedResult) (scope : String) (outcome : Result String Snapshot)
    (next : ScopedResult)
    → add_outcome aggregate scope outcome ≡ ok next
    → Added aggregate scope outcome next
unfolding add_outcome
add_outcome-Added aggregate scope (ok snapshot) next h =
    subst (Added aggregate scope (ok snapshot)) (cc) (add_collected-Added aggregate scope snapshot)
add_outcome-Added aggregate scope (err message) next h = elim (Option-cases (classify message)) [
  | inl e ↦ absurd (ground (arith, e, h))
  | inr (status, e) ↦
      subst (Added aggregate scope (err message)) (ground (arith, e, h))
        (add_partial-Added aggregate scope status message (classify-other message status e))
]

module _ (run : List String → Result String Snapshot) (options : Options) where
  abbrev outcome : String → Result String Snapshot
  outcome scope = run (scope_args options scope)

  -- What a successful collection says of the scopes that were asked for.
  pub record Reported (scopes : List String) (before after : ScopedResult) : Type 0 where
    pub names : map (λ s. s.scope) after.scopes ≡ map (λ s. s.scope) before.scopes ++ scopes
    statuses :
        map is_collected after.scopes
        ≡ map is_collected before.scopes
          ++ map (λ scope. succeeded (run (scope_args options scope))) scopes
    pub workloads :
        after.result.workloads
        ≡ before.result.workloads
          ++ concat_map (λ scope. workloads_in (run (scope_args options scope))) scopes

  collect_from-Reported :
      (before : ScopedResult) (scopes : List String) (after : ScopedResult)
      → collect_from run options before scopes ≡ ok after
      → Reported scopes before after
  unfolding collect_from
  collect_from-Reported before [] after h =
      let same : before ≡ after = cc in
      subst (Reported [] before) same (record {
        names = append_nil (map (λ s. s.scope) before.scopes);
        statuses = append_nil (map is_collected before.scopes);
        workloads = append_nil before.result.workloads;
      })
  collect_from-Reported before (scope ∷ scopes) after h =
      let (next, added, h₁) =
        >>=-eq-ok (add_outcome before scope (run (scope_args options scope))) _ h in
      let first = add_outcome-Added before scope (run (scope_args options scope)) next added in
      let rest = collect_from-Reported next scopes after h₁ in
      record {
        names =
            rest.names
            ∙ ap (λ xs. xs ++ scopes) first.names
            ∙ append_assoc (map (λ s. s.scope) before.scopes) (scope ∷ []) scopes;
        statuses =
            rest.statuses
            ∙ ap (λ xs. xs ++ map (λ scope. succeeded (run (scope_args options scope))) scopes)
                first.statuses
            ∙ append_assoc (map is_collected before.scopes)
                (succeeded (run (scope_args options scope)) ∷ []) _;
        workloads =
            rest.workloads
            ∙ ap
                (λ xs.
                  xs ++ concat_map (λ scope. workloads_in (run (scope_args options scope))) scopes)
                first.workloads
            ∙ append_assoc before.result.workloads (workloads_in (run (scope_args options scope)))
                _;
      }

  -- A successful collection asked for at least one scope, and reports each scope that was asked for
  -- once and in that order: as collected exactly if kubectl succeeded on it. The workloads are those of
  -- the scopes that were collected, in order, and no others.
  pub collect_scopes-Reported :
      (scopes : List String) (after : ScopedResult)
      → collect_scopes run options scopes ≡ ok after
      → (0 < length scopes) × Reported scopes nothing_collected after
  unfolding collect_scopes
  collect_scopes-Reported scopes after h =
      let (_, some_scope, h₁) = >>=-eq-ok (refuse (not (ltb 0 (length scopes))) no_scope) _ h in
      let (_, _, h₂) = >>=-eq-ok (check_scopes [] scopes) _ h₁ in
      (ground arith, collect_from-Reported nothing_collected scopes after h₂)
