-- ===== src/Vex.antt =====
-- internal/vex/vex.go: OpenVEX documents and the findings that they clear.
pub mod Parse
pub mod Suppression
pub mod Apply
pub mod Justification
use Prim.Native.Char.{code, len_utf8}
use Prim.Native.String.{◌∷◌ as cons, [] as empty, ◌++◌ as append}
use clusterproof.Prelude.{
  ℕ, suc, ◌+◌, ◌*◌, ◌^◌, String, Bool, true, false, not, ◌&&◌, ◌||◌, Option, none, some, List, [],
  ◌∷◌, ◌++◌, ◌==◌, if◌then◌else◌, ltb, nat_eq, leb, length, Result, ok, err, ◌>>=◌, ◌>>◌, refuse,
}
use clusterproof.Text.Chars.{is_control, to_lower}
use clusterproof.Text.Space.{trim_space, is_blank, fields, join}
use clusterproof.Text.Search.{has_prefix}
use clusterproof.Maps.{Map, get_text}
use clusterproof.Sorting.Orders.{then_by, by_text}
use clusterproof.Sorting.Interface.{Sorter}
use clusterproof.Time.{day_length, zero_time, sub, format_date}
use clusterproof.Files.{File, FileError, cannot_inspect, not_regular, cannot_open, read_bounded}
use clusterproof.Model.{Finding, SuppressedFinding}

pub record Limits : Type 0 where
  pub max_bytes : ℕ
  pub max_statements : ℕ
  pub max_text : ℕ

unfoldable pub default_limits : Limits
default_limits = record { max_bytes = 5242880; max_statements = 10000; max_text = 1000 }

abbrev pub status_not_affected : String
status_not_affected = "not_affected"

abbrev status_affected : String
status_affected = "affected"

abbrev pub status_fixed : String
status_fixed = "fixed"

abbrev status_under_investigation : String
status_under_investigation = "under_investigation"

-- Membership in the map `validStatuses`.
abbrev pub is_status : String → Bool
is_status s =
    s == status_not_affected
    || s == status_affected
    || s == status_fixed
    || s == status_under_investigation

pub record Statement : Type 0 where
  pub vulnerability : String
  pub product_purl : String
  pub status : String
  pub justification : String
  pub timestamp : ℕ

pub record Document : Type 0 where
  pub author : String
  pub timestamp : ℕ
  pub statements : List Statement

-- A statement of the decoded JSON document, with the purls of its products.
pub record RawStatement : Type 0 where
  pub vulnerability : String
  pub products : List String
  pub status : String
  pub justification : String
  pub timestamp : ℕ

pub record RawDocument : Type 0 where
  pub context : String
  pub author : String
  pub timestamp : ℕ
  pub statements : List RawStatement

pub data VexError : Type 0 where
  limits_not_positive not_json no_statements : VexError
  file : FileError → VexError
  unsupported_context : String → VexError
  too_many_statements : ℕ → VexError
  unsupported_status : ℕ → String → VexError
  no_vulnerability no_justification no_timestamp no_products : ℕ → VexError
  no_purl : ℕ → ℕ → VexError

-- The loop of `clean`; `written` is the length of the builder in bytes.
unfoldable pub clean_from : ℕ → ℕ → String → String
clean_from max written empty = empty
clean_from max written (cons c s) =
    let c' = if is_control (code c) then " " else cons c empty in
    let rest = clean_from max (written + (if is_control (code c) then 1 else len_utf8 c)) s in
    if leb max written then empty else append c' rest

unfoldable pub clean : String → ℕ → String
unfolding clean_from
clean value max = join " " (fields (clean_from max 0 (trim_space value)))

-- The loop over the products of a statement.
unfoldable pub bind_products :
    ℕ → ℕ → ℕ → (String → Statement) → List String → Result VexError (List Statement)
unfolding clean
bind_products max_text index product_index build [] = ok []
bind_products max_text index product_index build (p ∷ ps) =
    let rest = bind_products max_text index (suc product_index) build ps in
    do
      let purl = clean p max_text
      refuse (purl == "") (no_purl index product_index)
      statements ← rest
      ok (build purl ∷ statements)

abbrev or_document_time : ℕ → ℕ → ℕ
or_document_time t document = if nat_eq t zero_time then document else t

-- One round of the loop over the statements.
unfoldable pub read_statement : ℕ → ℕ → ℕ → RawStatement → Result VexError (List Statement)
unfolding bind_products clean
read_statement max_text document_time index raw = do
  let status = to_lower (trim_space raw.status)
  refuse (not (is_status status)) (unsupported_status index (clean raw.status 100))
  let vulnerability = clean raw.vulnerability max_text
  refuse (vulnerability == "") (no_vulnerability index)
  refuse (status == status_not_affected && is_blank raw.justification) (no_justification index)
  let timestamp = or_document_time raw.timestamp document_time
  refuse (nat_eq timestamp zero_time) (no_timestamp index)
  refuse (not (ltb 0 (length raw.products))) (no_products index)
  bind_products max_text index 1
      (λ purl. record {
        vulnerability = vulnerability;
        product_purl = purl;
        status = status;
        justification = clean raw.justification max_text;
        timestamp = timestamp;
      })
      raw.products

-- The loop over the statements; `index` counts from 1.
unfoldable pub read_statements : ℕ → ℕ → ℕ → List RawStatement → Result VexError (List Statement)
unfolding read_statement
read_statements max_text document_time index [] = ok []
read_statements max_text document_time index (raw ∷ raws) =
    let rest = read_statements max_text document_time (suc index) raws in
    do
      first ← read_statement max_text document_time index raw
      statements ← rest
      ok (first ++ statements)

abbrev pub statement_order : Statement → Statement → Bool
statement_order = then_by (λ s. s.vulnerability) (by_text (λ s. s.product_purl))

abbrev some_limit_zero : Limits → Bool
some_limit_zero limits =
    not (ltb 0 limits.max_bytes) || not (ltb 0 limits.max_statements) || not (ltb 0 limits.max_text)

abbrev or_file : {A : Type 0} → Result FileError A → Result VexError A
or_file (ok a) = ok a
or_file (err e) = err (VexError.file e)

abbrev or_err : {A : Type 0} → VexError → Option A → Result VexError A
or_err e none = err e
or_err e (some a) = ok a

module _ (S : Sorter) where
  -- What `Parse` does with the decoded document.
  unfoldable pub normalize : Limits → RawDocument → Result VexError Document
  unfolding read_statements clean
  normalize limits raw = do
    refuse (not (has_prefix raw.context "https://openvex.dev/ns"))
        (unsupported_context (clean raw.context 200))
    refuse (not (ltb 0 (length raw.statements))) no_statements
    refuse (ltb limits.max_statements (length raw.statements))
        (too_many_statements limits.max_statements)
    statements ← read_statements limits.max_text raw.timestamp 1 raw.statements
    ok (record {
      author = clean raw.author limits.max_text;
      timestamp = raw.timestamp;
      statements = S.sort statement_order statements;
    })

  -- `json` is the JSON decoder into the shape of a document.
  module _ (json : List ℕ → Option RawDocument) where
    unfoldable pub parse : Option (List ℕ) → Limits → Result VexError Document
    unfolding normalize
    parse reader limits = do
      refuse (some_limit_zero limits) limits_not_positive
      bytes ← or_file (read_bounded reader limits.max_bytes)
      raw ← or_err not_json (json bytes)
      normalize limits raw

    pub load : File → Limits → Result VexError Document
    unfolding parse
    load f limits = elim f.stat [
      | none ↦ err (VexError.file cannot_inspect)
      | some s ↦ do
        refuse (s.symlink || not s.regular) (VexError.file not_regular)
        refuse (not f.opened) (VexError.file cannot_open)
        parse f.content limits
    ]

-- The conditions of the loop in `SuppressionFor`.
clears : String → String → ℕ → ℕ → Statement → Bool
clears vulnerability purl now max_age s =
    not (not (s.vulnerability == vulnerability) || not (s.product_purl == purl))
    && not (not (s.status == status_not_affected) && not (s.status == status_fixed))
    && not (ltb 0 max_age && ltb max_age (sub now s.timestamp))

suppression_in : String → String → ℕ → ℕ → List Statement → Option Statement
unfolding clears
suppression_in vulnerability purl now max_age [] = none
suppression_in vulnerability purl now max_age (s ∷ ss) =
    let rest = suppression_in vulnerability purl now max_age ss in
    if clears vulnerability purl now max_age s then some s else rest

pub suppression_for : Document → String → String → ℕ → ℕ → Option Statement
unfolding suppression_in
suppression_for d vulnerability purl now max_age =
    suppression_in vulnerability purl now max_age d.statements

abbrev pub default_max_age : ℕ
default_max_age = 365 * day_length

vex_reason : Statement → String
vex_reason s =
    let reason = append "VEX " s.status in
    if s.justification == "" then reason else append reason (append ": " s.justification)

unfoldable pub suppress : Document → ℕ → Finding → Statement → SuppressedFinding
unfolding vex_reason
suppress d max_age f s = record {
  rule_id = f.id;
  severity = f.severity;
  target = f.target;
  owner = d.author;
  reason = vex_reason s;
  expires = format_date (s.timestamp + max_age);
  location = record {
    path = f.location.path;
    document = 0;
    line = 0;
    resource = "";
    container = f.location.container;
  };
}

-- The statement that clears a finding, if its identity is complete and one does.
pub suppression_of : Document → ℕ → ℕ → Finding → Option Statement
unfolding suppression_for
suppression_of d now max_age f =
    let vulnerability = get_text "vulnerability" f.external_refs in
    let purl = get_text "purl" f.external_refs in
    if vulnerability == "" || purl == ""
    then none
    else suppression_for d vulnerability purl now max_age

-- The loop of `ApplyToFindings`.
unfoldable pub partition : Document → ℕ → ℕ → List Finding → List Finding × List SuppressedFinding
unfolding suppression_of suppress
partition d now max_age [] = ([], [])
partition d now max_age (f ∷ fs) =
    let (kept, suppressed) = partition d now max_age fs in
    elim (suppression_of d now max_age f) [
      | none ↦ (f ∷ kept, suppressed)
      | some s ↦ (kept, suppress d max_age f s ∷ suppressed)
    ]

abbrev pub suppressed_order : SuppressedFinding → SuppressedFinding → Bool
suppressed_order = then_by (λ s. s.rule_id) (by_text (λ s. s.target))

module _ (S : Sorter) where
  unfoldable pub apply_to_findings :
      Document → List Finding → ℕ → ℕ → List Finding × List SuppressedFinding
  unfolding partition
  apply_to_findings d findings now max_age =
      let (kept, suppressed) = partition d now max_age findings in
      (kept, S.sort suppressed_order suppressed)
