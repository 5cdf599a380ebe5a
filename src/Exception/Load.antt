-- ===== src/Exception/Load.antt =====
-- What a loaded exception file guarantees.
use Prim.Native.String.{len}
use clusterproof.Prelude.{
  ℕ, ◌≤◌, String, ◌≡◌, Bool, false, ◌&&◌, ◌||◌, some, List, [], ◌∷◌, ◌==◌, ltb, any, All,
}
use clusterproof.Text.Space.{is_blank}
use clusterproof.Text.Search.{contains_any}
use clusterproof.Time.{parse_date}
use clusterproof.Exception.{Exception, entry_key}

-- A text that may stand in a field.
pub record IsText (max : ℕ) (value : String) : Type 0 where
  pub present : is_blank value ≡ false
  pub bounded : len value ≤ max
  pub printable : contains_any value "\0\n\r" ≡ false

-- What the file's contract asks of an entry.
pub record IsValid (max : ℕ) (e : Exception) : Type 0 where
  pub rule : IsText max e.rule_id
  pub target : IsText max e.target
  pub owner : IsText max e.owner
  pub reason : IsText max e.reason
  pub expires : IsText max e.expires
  pub date : (day : ℕ) × (parse_date e.expires ≡ some day)

-- The test of one field, without its error.
abbrev refused : ℕ → String × String → Bool
refused max (name, value) = is_blank value || ltb max (len value) || contains_any value "\0\n\r"

-- No entry has the rule and target of an earlier one, nor a key among `seen`.
abbrev Fresh : List String → List Exception → Type 0
Fresh seen [] = Unit
Fresh seen (e ∷ es) = (any (λ k. k == entry_key e) seen ≡ false) × Fresh (entry_key e ∷ seen) es

-- No two entries have the same rule and target.
abbrev pub Distinct : List Exception → Type 0
Distinct [] = Unit
Distinct (e ∷ es) =
    All (λ other. (e.rule_id == other.rule_id && e.target == other.target) ≡ false) es × Distinct es
