-- ===== src/Vex/Justification.antt =====
-- A justification that consists of a control character passes the check for one, and is then
-- cleaned away.
use Prim.Native.Char.{Char, code}
use Prim.Native.String.compare
use Prim.Native.String.{◌∷◌ as cons, [] as empty}
use clusterproof.Prelude.{
  ℕ, ◌<◌, map, >>=-eq-ok, refuse-eq-ok, refuse, not, ◌&&◌, ◌==◌, nat_eq, length, ltb, String, ◌≡◌,
  true, false, List, [], ◌∷◌, ok, arith, leb, suc,
}
use clusterproof.Text.Chars.{to_lower, is_space, is_control}
use clusterproof.Time.{zero_time}
use clusterproof.Text.Space.{is_blank, trim_space, fields, join}
use clusterproof.Vex.{
  RawStatement, Statement, read_statement, clean, VexError, is_status, or_document_time, clean_from,
  status_not_affected, bind_products,
}

trim_space_one : (c : Char) → is_space (code c) ≡ false → trim_space (cons c empty) ≡ cons c empty
unfolding trim_space
trim_space_one c h = ground arith

is_blank_one : (c : Char) → is_space (code c) ≡ false → is_blank (cons c empty) ≡ false
unfolding is_blank
is_blank_one c h = rw (trim_space_one c h) (ground (arith, compare.cons-nil c empty))

clean_from_control :
    (c : Char) (max : ℕ)
    → is_control (code c) ≡ true
    → 0 < max
    → clean_from max 0 (cons c empty) ≡ " "
unfolding clean_from
clean_from_control c max control h =
    let below : leb max 0 ≡ false = ground arith in rw (below, control)

clean_control :
    (c : Char) (max : ℕ)
    → is_control (code c) ≡ true
    → is_space (code c) ≡ false
    → 0 < max
    → clean (cons c empty) max ≡ ""
unfolding clean join fields
clean_control c max control space h =
    rw (trim_space_one c space, clean_from_control c max control h)

bind_products-map :
    (max_text index product_index : ℕ) (build : String → Statement) (g : Statement → Statement)
    (ps : List String) {ss : List Statement}
    → bind_products max_text index product_index build ps ≡ ok ss
    → bind_products max_text index product_index (λ p. g (build p)) ps ≡ ok (map g ss)
unfolding bind_products
bind_products-map max_text index product_index build g [] {ss} h =
    let same : [] ≡ ss = ground arith in rw (← same)
bind_products-map max_text index product_index build g (p ∷ ps) {ss} h =
    let (_, named, h₁) =
      >>=-eq-ok (refuse (clean p max_text == "") (VexError.no_purl index product_index)) _ h in
    let (rest, read, h₂) =
      >>=-eq-ok (bind_products max_text index (suc product_index) build ps) _ h₁ in
    let same : build (clean p max_text) ∷ rest ≡ ss = ground arith in
    rw (
      refuse-eq-ok _ _ named,
      bind_products-map max_text index (suc product_index) build g ps read,
      ← same,
    )

abbrev pub without_justification : Statement → Statement
without_justification s = record s { justification = "" }

-- A statement that is read with some justification is read as well when its justification is a
-- single control character that is no white space, and then each of the resulting statements has
-- an empty justification, whatever its status.
pub justification_lost :
    (max_text document_time index : ℕ) (raw : RawStatement) (c : Char) (ss : List Statement)
    → is_control (code c) ≡ true
    → is_space (code c) ≡ false
    → 0 < max_text
    → is_blank raw.justification ≡ false
    → read_statement max_text document_time index raw ≡ ok ss
    → read_statement max_text document_time index (record raw { justification = cons c empty })
      ≡ ok (map without_justification ss)
unfolding read_statement
justification_lost max_text document_time index raw c ss control space h blank read =
    let status = to_lower (trim_space raw.status) in
    let vulnerability = clean raw.vulnerability max_text in
    let timestamp = or_document_time raw.timestamp document_time in
    let (_, known, h₁) = >>=-eq-ok (refuse (not (is_status status)) _) _ read in
    let (_, named, h₂) = >>=-eq-ok (refuse (vulnerability == "") _) _ h₁ in
    let (_, _, h₃) =
      >>=-eq-ok (refuse (status == status_not_affected && is_blank raw.justification) _) _ h₂ in
    let (_, dated, h₄) = >>=-eq-ok (refuse (nat_eq timestamp zero_time) _) _ h₃ in
    let (_, bound, h₅) = >>=-eq-ok (refuse (not (ltb 0 (length raw.products))) _) _ h₄ in
    let emptied = bind_products-map max_text index 1 _ without_justification raw.products h₅ in
    let present : is_blank (cons c empty) ≡ false = is_blank_one c space in
    let passes : (status == status_not_affected && is_blank (cons c empty)) ≡ false =
      ground (arith, present) in
    rw
      (
        refuse-eq-ok _ _ known,
        refuse-eq-ok _ _ named,
        passes,
        refuse-eq-ok _ _ dated,
        refuse-eq-ok _ _ bound,
        clean_control c max_text control space h,
      )
      emptied
