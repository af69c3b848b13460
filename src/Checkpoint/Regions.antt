-- ===== src/Checkpoint/Regions.antt =====
-- The maps that hold the free space of a checkpoint file: std::map from offset to size, and
-- std::multimap from size to offset, each as the list of its entries in key order.
use stldb.Prelude.{
  ℕ, ◌+◌, ◌≤◌, ◌<◌, Bool, false, ◌&&◌, ◌||◌, Option, none, some, List, [], ◌∷◌, ◌==◌, ltb, leb,
  if◌then◌else◌,
}
use mathlib.Core.Option

-- insert of the multimap, after the entries with the same key.
unfoldable pub insert_multi : ℕ → ℕ → List (ℕ × ℕ) → List (ℕ × ℕ)
insert_multi k v [] = (k, v) ∷ []
insert_multi k v ((j, w) ∷ xs) =
    let later = insert_multi k v xs in if ltb k j then (k, v) ∷ (j, w) ∷ xs else (j, w) ∷ later

-- lower_bound of the multimap: the entry that it gives, and the others.
unfoldable pub lower_bound_multi : ℕ → List (ℕ × ℕ) → Option ((ℕ × ℕ) × List (ℕ × ℕ))
lower_bound_multi k [] = none
lower_bound_multi k ((j, w) ∷ xs) =
    let later = lower_bound_multi k xs in
    if leb k j then some ((j, w), xs) else Option.map (λ r. (r.0, (j, w) ∷ r.1)) later

-- insert of the map, which keeps an entry that has the key.
unfoldable pub insert_region : ℕ → ℕ → List (ℕ × ℕ) → List (ℕ × ℕ)
insert_region o s [] = (o, s) ∷ []
insert_region o s ((p, t) ∷ xs) =
    let later = insert_region o s xs in
    if ltb o p then (o, s) ∷ (p, t) ∷ xs else if o == p then (p, t) ∷ xs else (p, t) ∷ later

-- insert of a range.
unfoldable pub insert_regions : List (ℕ × ℕ) → List (ℕ × ℕ) → List (ℕ × ℕ)
insert_regions [] xs = xs
insert_regions ((o, s) ∷ new) xs = insert_regions new (insert_region o s xs)

-- find and erase of the map: the size found, and the others.
unfoldable pub take_region : ℕ → List (ℕ × ℕ) → Option (ℕ × List (ℕ × ℕ))
take_region o [] = none
take_region o ((p, t) ∷ xs) =
    let later = take_region o xs in
    if o == p then some (t, xs) else Option.map (λ r. (r.0, (p, t) ∷ r.1)) later

-- The byte x lies in the region.
abbrev pub within : ℕ → ℕ → ℕ → Bool
within o s x = leb o x && ltb x (o + s)

unfoldable pub is_free : ℕ → List (ℕ × ℕ) → Bool
is_free x [] = false
is_free x ((o, s) ∷ xs) = within o s x || is_free x xs

-- The regions are not empty, and lie one after the other between two offsets.
abbrev pub Apart : ℕ → List (ℕ × ℕ) → ℕ → Type 0
Apart lo [] hi = lo ≤ hi
Apart lo ((o, s) ∷ xs) hi = (lo ≤ o) × (0 < s) × Apart (o + s) xs hi

-- How often the entry stands in the list.
unfoldable pub count : ℕ → ℕ → List (ℕ × ℕ) → ℕ
count k v [] = 0
count k v ((j, w) ∷ xs) = (if (k == j) && (v == w) then 1 else 0) + count k v xs
