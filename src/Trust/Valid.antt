-- ===== src/Trust/Valid.antt =====
-- internal/trust/trust.go: what a policy that loads guarantees.
use Prim.Native.String.{len}
use clusterproof.Prelude.{
  is_ok, ℕ, suc, String, ◌≡◌, refl, sym, ap, subst, ◌∙◌, Bool, true, not, ◌&&◌, ◌||◌, some, List,
  [], ◌∷◌, ◌==◌, arith, all, ltb, length, Result, ok, refuse, >>=-eq-ok,
}
use clusterproof.Text.Space.{is_blank}
use clusterproof.Text.Search.{contains, contains_any, has_prefix}
use clusterproof.Text.Order.{str_lt}
use clusterproof.Sorting.Counts.{all-perm, any-perm, length-perm}
use clusterproof.Sorting.Interface.{Sorter}
use clusterproof.Sorting.Orders.{by_text}
use clusterproof.Trust.{
  Limits, Identity, Key, Policy, Yaml, EntryError, PolicyError, require_text, check_identity,
  check_key, check_predicate, check_entries, validate, normalize, parse, identity_order,
  allows_predicate, matches_identity, pins_nothing, or_malformed, several_documents, bad_identity,
  bad_key, bad_predicate,
}

abbrev is_text : ℕ → String → Bool
is_text max value =
    not (is_blank value) && (not (ltb max (len value)) && not (contains_any value "\0\r"))

-- An identity has a subject and an issuer, and the issuer is an https URL.
is_identity : ℕ → Identity → Bool
is_identity max i =
    is_text max i.subject && (is_text max i.issuer && has_prefix i.issuer "https://")

-- A key has a name, and either a path or a PEM text: one of a public key, without a private key.
is_key : ℕ → Key → Bool
is_key max k =
    is_text max k.name
    && ((is_blank k.public_key_pem && not (is_blank k.path))
        || (not (is_blank k.public_key_pem) && is_blank k.path)
          && (not (contains k.public_key_pem "PRIVATE KEY")
              && contains k.public_key_pem "BEGIN PUBLIC KEY"))

is_predicate : ℕ → String → Bool
is_predicate max p = is_text max p && has_prefix p "https://"

pub is_acceptable : Policy → Limits → Bool
is_acceptable policy limits =
    policy.schema_version == "1"
    && ((ltb 0 (length policy.identities) || ltb 0 (length policy.keys))
        && (not (ltb limits.max_identities (length policy.identities))
            && (not (ltb limits.max_keys (length policy.keys))
                && (not (ltb limits.max_predicates (length policy.allowed_predicate_types))
                    && (all (is_identity limits.max_text_bytes) policy.identities
                        && (all (is_key limits.max_text_bytes) policy.keys
                            && (all (is_predicate limits.max_text_bytes)
                                  policy.allowed_predicate_types
                                && not (pins_nothing policy.provenance))))))))

is_ok-check_identity : (max : ℕ) (i : Identity) → is_ok (check_identity max i) ≡ is_identity max i
unfolding check_identity require_text is_identity
is_ok-check_identity max i = ground arith

is_ok-check_key : (max : ℕ) (k : Key) → is_ok (check_key max k) ≡ is_key max k
unfolding check_key require_text is_key
is_ok-check_key max k = ground arith

is_ok-check_predicate : (max : ℕ) (p : String) → is_ok (check_predicate max p) ≡ is_predicate max p
unfolding check_predicate require_text is_predicate
is_ok-check_predicate max p = ground arith

is_ok-check_entries :
    {A : Type 0} (wrap : ℕ → EntryError → PolicyError) (check : A → Result EntryError (Unit {0}))
    (p : A → Bool) (index : ℕ) (xs : List A)
    → ((a : A) → is_ok (check a) ≡ p a)
    → is_ok (check_entries wrap check index xs) ≡ all p xs
unfolding check_entries
is_ok-check_entries wrap check p index [] h = refl
is_ok-check_entries wrap check p index (x ∷ xs) h =
    ground (arith, h x, is_ok-check_entries wrap check p (suc index) xs h)

is_ok-validate :
    (policy : Policy) (limits : Limits)
    → is_ok (validate policy limits) ≡ is_acceptable policy limits
unfolding validate is_acceptable
is_ok-validate policy limits = ground (
  arith,
  is_ok-check_entries bad_identity (check_identity limits.max_text_bytes)
      (is_identity limits.max_text_bytes) 1 policy.identities
      (is_ok-check_identity limits.max_text_bytes),
  is_ok-check_entries bad_key (check_key limits.max_text_bytes) (is_key limits.max_text_bytes) 1
      policy.keys (is_ok-check_key limits.max_text_bytes),
  is_ok-check_entries bad_predicate (check_predicate limits.max_text_bytes)
      (is_predicate limits.max_text_bytes) 1 policy.allowed_predicate_types
      (is_ok-check_predicate limits.max_text_bytes),
)

module _ (S : Sorter) where
  normalize-acceptable :
      (policy : Policy) (limits : Limits)
      → is_acceptable (normalize S policy) limits ≡ is_acceptable policy limits
  unfolding normalize is_acceptable
  normalize-acceptable policy limits = ground (
    arith,
    length-perm (S.sort_perm identity_order policy.identities),
    length-perm (S.sort_perm (by_text (λ (k : Key). k.name)) policy.keys),
    length-perm (S.sort_perm str_lt policy.allowed_predicate_types),
    all-perm (is_identity limits.max_text_bytes) (S.sort_perm identity_order policy.identities),
    all-perm (is_key limits.max_text_bytes)
        (S.sort_perm (by_text (λ (k : Key). k.name)) policy.keys),
    all-perm (is_predicate limits.max_text_bytes)
        (S.sort_perm str_lt policy.allowed_predicate_types),
  )

  -- What a parsed policy is: a permutation of the entries of a document that meets the contract.
  pub record Parsed (raw policy : Policy) (limits : Limits) : Type 0 where
    acceptable : is_acceptable policy limits ≡ true
    pub identities :
        (subject issuer : String)
        → matches_identity policy subject issuer ≡ matches_identity raw subject issuer
    predicates :
        (predicate_type : String)
        → allows_predicate policy predicate_type ≡ allows_predicate raw predicate_type
    pub provenance : policy.provenance ≡ raw.provenance

  normalize-Parsed :
      (raw : Policy) (limits : Limits)
      → is_acceptable raw limits ≡ true
      → Parsed raw (normalize S raw) limits
  unfolding normalize matches_identity allows_predicate
  normalize-Parsed raw limits h = record {
    acceptable = normalize-acceptable raw limits ∙ h;
    identities = λ subject issuer.
        any-perm (λ i. i.subject == subject && i.issuer == issuer)
          (S.sort_perm identity_order raw.identities);
    predicates = λ predicate_type.
        any-perm (λ allowed. allowed == predicate_type)
          (S.sort_perm str_lt raw.allowed_predicate_types);
    provenance = refl;
  }

module _ (S : Sorter) (yaml : Yaml) where
  -- A policy that `Parse` returns meets every rule of the contract (a supported version, a signer, the
  -- limits, an issuer for each identity, public keys only, https predicate types, a pinned
  -- provenance), and accepts exactly the identities and predicate types of the document's text.
  pub parse-Parsed :
      (data_bytes : List ℕ) (limits : Limits) (policy : Policy)
      → parse S yaml data_bytes limits ≡ ok policy
      → (raw : Policy) × (yaml.decode data_bytes ≡ some raw) × Parsed S raw policy limits
  unfolding parse
  parse-Parsed data_bytes limits policy h =
      let (raw, decoded, h₁) = >>=-eq-ok (or_malformed (yaml.decode data_bytes)) _ h in
      let (_, _, h₂) = >>=-eq-ok (refuse (not (yaml.at_end data_bytes)) several_documents) _ h₁ in
      let (_, valid, h₃) = >>=-eq-ok (validate raw limits) _ h₂ in
      let same_policy : normalize S raw ≡ policy = cc in
      (
        raw,
        ground (arith, decoded),
        subst (λ q. Parsed S raw q limits) same_policy
            (normalize-Parsed S raw limits (sym (is_ok-validate raw limits) ∙ ap is_ok valid)),
      )
