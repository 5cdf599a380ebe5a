-- ===== src/Image/Uses.antt =====
-- internal/image/inventory.go: what the inventory lists.
use clusterproof.Prelude.{
  String, ◌≡◌, refl, sym, ap, ◌∙◌, Bool, not, ◌&&◌, ◌||◌, List, [], ◌∷◌, ◌++◌, ◌==◌, arith, eq_iff,
  any, any_ext, any-append, any-map, All, Bool-cases, inl, inr,
}
use clusterproof.Text.Space.{trim_space}
use clusterproof.Text.Order.{str_lt}
use clusterproof.Maps.{Map, get, put, Ranging}
use clusterproof.Sorting.Counts.{any-perm}
use clusterproof.Sorting.Interface.{Sorter}
use clusterproof.Sorting.Orders.{by_text}
use clusterproof.Manifest.{Workload, Container, workload_target, all_containers}
use clusterproof.Rules.Risks.{elem}
use clusterproof.Image.{
  Reference, parse_reference, or_parsed, add_image, add_images, add_workloads, finish, inventory,
  dedupe_after, dedupe_sorted,
}

any-dedupe_after :
    (p : String → Bool) (previous : String) (xs : List String)
    → (p previous || any p (dedupe_after previous xs)) ≡ (p previous || any p xs)
unfolding dedupe_after
any-dedupe_after p previous [] = refl
any-dedupe_after p previous (x ∷ xs) = ground (arith, eq_iff x previous, any-dedupe_after p x xs)

any-dedupe_sorted : (p : String → Bool) (xs : List String) → any p (dedupe_sorted xs) ≡ any p xs
unfolding dedupe_sorted
any-dedupe_sorted p [] = refl
any-dedupe_sorted p (x ∷ xs) = any-dedupe_after p x xs

-- An entry of the map for an image, with a workload.
abbrev records : String → String → String × Reference → Bool
records raw target entry = entry.1.raw == raw && elem target entry.1.workloads

abbrev adds : String → Reference → Reference
adds target entry = record entry { workloads = entry.workloads ++ target ∷ [] }

any-put :
    (raw target k t : String) (m : Map Reference)
    → All (λ e. e.1.raw ≡ e.0) m
    → any (records raw target) (put k (adds t (or_parsed k (get k m))) m)
      ≡ (any (records raw target) m || (k == raw && t == target))
unfolding get put parse_reference
any-put raw target k t [] h = ground arith
any-put raw target k t ((j, w) ∷ m) h = ground (
  arith,
  eq_iff j k,
  eq_iff k raw,
  any-append (λ y. y == target) w.workloads (t ∷ []),
  any-put raw target k t m h.1,
)

-- The keys of the map are the texts of its entries.
put-raw :
    (k : String) (v : Reference) (m : Map Reference)
    → v.raw ≡ k
    → All (λ e. e.1.raw ≡ e.0) m
    → All (λ e. e.1.raw ≡ e.0) (put k v m)
unfolding put
put-raw k v [] e h = (e, tt)
put-raw k v ((j, w) ∷ m) e h = elim (Bool-cases (j == k)) [
  | inl same ↦ rw same (e ∙ sym ((eq_iff j k).0 same), h.1)
  | inr other ↦ rw other (h.0, put-raw k v m e h.1)
]

or_parsed-raw :
    (k : String) (m : Map Reference) → All (λ e. e.1.raw ≡ e.0) m → (or_parsed k (get k m)).raw ≡ k
unfolding get parse_reference
or_parsed-raw k [] h = refl
or_parsed-raw k ((j, w) ∷ m) h = elim (Bool-cases (j == k)) [
  | inl same ↦ rw same (h.0 ∙ (eq_iff j k).0 same)
  | inr other ↦ rw other (or_parsed-raw k m h.1)
]

add_image-raw :
    (m : Map Reference) (t : String) (c : Container)
    → All (λ e. e.1.raw ≡ e.0) m
    → All (λ e. e.1.raw ≡ e.0) (add_image m t c)
unfolding add_image
add_image-raw m t c h = elim (Bool-cases (trim_space c.image == "")) [
  | inl blank ↦ rw blank h
  | inr image ↦ rw image (
      put-raw (trim_space c.image)
        (adds t (or_parsed (trim_space c.image) (get (trim_space c.image) m))) m
        (or_parsed-raw (trim_space c.image) m h) h)
]

-- A container with an image.
abbrev has_image : String → Container → Bool
has_image raw c = not (raw == "") && trim_space c.image == raw

any-add_image :
    (raw target t : String) (m : Map Reference) (c : Container)
    → All (λ e. e.1.raw ≡ e.0) m
    → any (records raw target) (add_image m t c)
      ≡ (any (records raw target) m || (has_image raw c && t == target))
unfolding add_image
any-add_image raw target t m c h = elim (Bool-cases (trim_space c.image == "")) [
  | inl blank ↦
      ground (
        arith,
        blank,
        eq_iff (trim_space c.image) "",
        eq_iff (trim_space c.image) raw,
        eq_iff raw "",
      )
  | inr image ↦ ground (
    arith,
    image,
    any-put raw target (trim_space c.image) t m h,
    eq_iff (trim_space c.image) "",
    eq_iff (trim_space c.image) raw,
    eq_iff raw "",
  )
]

add_images-any :
    (raw target t : String) (m : Map Reference) (cs : List Container)
    → All (λ e. e.1.raw ≡ e.0) m
    → (any (records raw target) (add_images m t cs)
        ≡ (any (records raw target) m || (any (has_image raw) cs && t == target)))
      × All (λ e. e.1.raw ≡ e.0) (add_images m t cs)
unfolding add_images
add_images-any raw target t m [] h = (ground arith, h)
add_images-any raw target t m (c ∷ cs) h =
    let rest = add_images-any raw target t (add_image m t c) cs (add_image-raw m t c h) in
    (ground (arith, rest.0, any-add_image raw target t m c h), rest.1)

-- A workload with a container of an image.
unfoldable pub uses_image : String → Workload → Bool
uses_image raw w =
    any (λ c. not (raw == "") && trim_space c.image == raw) (all_containers w.pod_spec)

add_workloads-any :
    (raw target : String) (m : Map Reference) (ws : List Workload)
    → All (λ e. e.1.raw ≡ e.0) m
    → any (records raw target) (add_workloads m ws) ≡ (
        any (records raw target) m || any (λ w. uses_image raw w && workload_target w == target) ws)
unfolding add_workloads uses_image
add_workloads-any raw target m [] h = ground arith
add_workloads-any raw target m (w ∷ ws) h =
    let here = add_images-any raw target (workload_target w) m (all_containers w.pod_spec) h in
    ground (
      arith,
      here.0,
      add_workloads-any raw target (add_images m (workload_target w) (all_containers w.pod_spec)) ws
          here.1,
    )

module _ (R : Ranging) (S : Sorter) where
  finish-records :
      (raw target : String) (e : String × Reference)
      → ((finish S e).raw == raw && elem target (finish S e).workloads) ≡ records raw target e
  unfolding finish
  finish-records raw target (k, entry) =
      ap (λ b. entry.raw == raw && b)
        (any-dedupe_sorted (λ y. y == target) (S.sort str_lt entry.workloads)
          ∙ any-perm (λ y. y == target) (S.sort_perm str_lt entry.workloads))

  -- The inventory lists a workload under an image exactly if a workload of that target, the first or a
  -- later one, has a container whose trimmed image is that text; and it lists no empty image.
  pub inventory-uses :
      (raw target : String) (workloads : List Workload)
      → any (λ r. r.raw == raw && elem target r.workloads) (inventory R S workloads)
        ≡ any (λ w. uses_image raw w && workload_target w == target) workloads
  unfolding inventory
  inventory-uses raw target workloads =
      any-perm (λ r. r.raw == raw && elem target r.workloads) (S.sort_perm (by_text (λ r. r.raw)) _)
      ∙ any-map (λ r. r.raw == raw && elem target r.workloads) (finish S)
          (R.range (add_workloads [] workloads))
      ∙ any_ext _ _ (finish-records raw target) (R.range (add_workloads [] workloads))
      ∙ any-perm (records raw target) (R.range_perm (add_workloads [] workloads))
      ∙ add_workloads-any raw target [] workloads tt
