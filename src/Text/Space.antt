-- ===== src/Text/Space.antt =====
-- White space: Go's `strings.TrimSpace` and `strings.Fields`, and `strings.Join`.
use Prim.Native.Char.{code}
use Prim.Native.String.{◌∷◌ as cons, [] as empty, ◌++◌ as append}
use clusterproof.Prelude.{String, ◌≡◌, refl, Bool, ◌&&◌, List, [], ◌∷◌, ◌==◌, if◌then◌else◌}
use clusterproof.Text.Chars.{is_space}

unfoldable pub trim_left : String → String
unfolding is_space
trim_left empty = empty
trim_left (cons c s) = let rest = trim_left s in if is_space (code c) then rest else cons c s

unfoldable pub trim_right : String → String
unfolding is_space
trim_right empty = empty
trim_right (cons c s) =
    let rest = trim_right s in if rest == "" && is_space (code c) then empty else cons c rest

unfoldable pub trim_space : String → String
unfolding trim_left trim_right
trim_space s = trim_right (trim_left s)

-- Whether `strings.TrimSpace` leaves nothing.
unfoldable pub is_blank : String → Bool
unfolding trim_space
is_blank s = trim_space s == ""

push_word : String → List String → List String
push_word empty words = words
push_word (cons c s) words = cons c s ∷ words

-- The words of a text and the word that its beginning continues.
split_words : String → String × List String
split_words empty = (empty, [])
split_words (cons c s) =
    let (word, words) = split_words s in
    if is_space (code c) then (empty, push_word word words) else (cons c word, words)

unfoldable pub fields : String → List String
unfolding split_words push_word is_space
fields s = let (word, words) = split_words s in push_word word words

-- strings.Join
unfoldable pub join : String → List String → String
join sep [] = empty
join sep (x ∷ []) = x
join sep (x ∷ y ∷ xs) = append x (append sep (join sep (y ∷ xs)))

trimmed : trim_space "  a b " ≡ "a b"
unfolding trim_space
trimmed = refl

words : join "-" (fields "  a b  cd ") ≡ "a-b-cd"
unfolding join fields
words = refl
