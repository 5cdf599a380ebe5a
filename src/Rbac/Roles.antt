-- ===== src/Rbac/Roles.antt =====
-- internal/rbac/rbac.go: which role a binding refers to.
use clusterproof.Prelude.{
  String, ◌≡◌, refl, ap, ◌∙◌, Bool, ◌&&◌, Option, none, some, List, [], ◌∷◌, ◌==◌, if◌then◌else◌,
  arith, All, find_last,
}
use clusterproof.Text.Keys.{NulFree, nul_join-eq_parts, nul_join}
use clusterproof.Text.Search.{has_char}
use clusterproof.Maps.{Map, get, put, get-put}
use clusterproof.Manifest.{RbacRole, RbacBinding}
use clusterproof.Rbac.{role_key, role_index_from, resolve_role}

-- The kind and the namespace of a role have no NUL in them: names of Kubernetes never have one.
abbrev PlainRole : RbacRole → Type 0
PlainRole role = NulFree role.kind × NulFree role.namespace

abbrev is_role : String → String → String → RbacRole → Bool
is_role kind namespace name role =
    role.kind == kind && (role.namespace == namespace && role.name == name)

abbrev or_else : Option RbacRole → Option RbacRole → Option RbacRole
or_else none d = d
or_else (some a) d = some a

role_key-eq :
    (kind namespace name : String) (role : RbacRole)
    → NulFree kind
    → NulFree namespace
    → PlainRole role
    → (role_key role.kind role.namespace role.name == role_key kind namespace name)
      ≡ is_role kind namespace name role
role_key-eq kind namespace name role hk hn hr =
    nul_join-eq_parts role.kind (nul_join role.namespace role.name) kind (nul_join namespace name)
      hr.0 hk
    ∙ ap (λ b. role.kind == kind && b)
        (nul_join-eq_parts role.namespace role.name namespace name hr.1 hn)

get-role_index_from :
    (kind namespace name : String) (index : Map RbacRole) (roles : List RbacRole)
    → NulFree kind
    → NulFree namespace
    → All PlainRole roles
    → get (role_key kind namespace name) (role_index_from index roles)
      ≡ or_else
          (find_last (is_role kind namespace name) roles)
          (get (role_key kind namespace name) index)
unfolding role_index_from
get-role_index_from kind namespace name index [] hk hn h = refl
get-role_index_from kind namespace name index (role ∷ roles) hk hn h = ground (
  arith,
  get-role_index_from kind namespace name
      (put (role_key role.kind role.namespace role.name) role index) roles hk hn h.1,
  get-put (role_key role.kind role.namespace role.name) (role_key kind namespace name) role index,
  role_key-eq kind namespace name role hk hn h.0,
)

or_else-none : (o : Option RbacRole) → or_else o none ≡ o
or_else-none none = refl
or_else-none (some a) = refl

get-role_index :
    (kind namespace name : String) (roles : List RbacRole)
    → NulFree kind
    → NulFree namespace
    → All PlainRole roles
    → get (role_key kind namespace name) (role_index_from [] roles)
      ≡ find_last (is_role kind namespace name) roles
unfolding get
get-role_index kind namespace name roles hk hn h =
    get-role_index_from kind namespace name [] roles hk hn h ∙ or_else-none _

plain_kinds : NulFree "ClusterRole" × (NulFree "Role" × NulFree "")
unfolding has_char
plain_kinds = (refl, (refl, refl))

-- The role of a binding is the last role of the input that is the cluster role it names, or else the
-- role that it names in its own namespace; there is none if the input has no such role. (Where the
-- kinds and namespaces have no NUL in them.)
pub resolve_role-last :
    (roles : List RbacRole) (binding : RbacBinding)
    → All PlainRole roles
    → NulFree binding.namespace
    → resolve_role (role_index_from [] roles) binding ≡ (
        if binding.role_kind == "ClusterRole"
        then find_last (is_role "ClusterRole" "" binding.role_name) roles
        else find_last (is_role "Role" binding.namespace binding.role_name) roles)
unfolding resolve_role
resolve_role-last roles binding h hn = ground (
  arith,
  get-role_index "ClusterRole" "" binding.role_name roles plain_kinds.0 plain_kinds.1.1 h,
  get-role_index "Role" binding.namespace binding.role_name roles plain_kinds.1.0 hn h,
)
