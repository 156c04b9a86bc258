-- ===== src/Listing/Slash/Outputs.antt =====
-- Sorting and selecting by the output keys of directories (listing_from_statuses of
-- src/s3/sorted_listing.rs).
use hdfs_s3_gateway.Prelude.{
  ℕ, ◌≡◌, ◌≢◌, refl, ap, ◌∙◌, Bool, Bytes, lit, Ordering, List, [], ◌∷◌, map, select, All, arith,
}
use hdfs_s3_gateway.Listing.{cmp_dir_keys}
use hdfs_s3_gateway.Listing.Compare.{cmp_dir_keys-eq-cmp_bytes}
use hdfs_s3_gateway.Listing.Paginate.{insert_sorted, sort_by, sort}
use hdfs_s3_gateway.Listing.Sorting.{Distinct, if-elim, All-map_to}
use hdfs_s3_gateway.Listing.Slash.Merging.{output}
use hdfs_s3_gateway.Listing.Slash.Turns.{All-map-select}
use hdfs_s3_gateway.SortedListing.{insert_dir, sort_dirs}

map-insert_dir :
    (d : Bytes) (dirs : List Bytes)
    → map output (insert_dir d dirs) ≡ insert_sorted (λ k. k) (output d) (map output dirs)
unfolding insert_dir insert_sorted
map-insert_dir d [] = refl
map-insert_dir d (e ∷ dirs) = ground (arith, map-insert_dir d dirs, cmp_dir_keys-eq-cmp_bytes d e)

-- Sorting the directories sorts their output keys.
pub map-sort_dirs : (dirs : List Bytes) → map output (sort_dirs dirs) ≡ sort (map output dirs)
unfolding sort_dirs sort_by
map-sort_dirs [] = refl
map-sort_dirs (d ∷ dirs) =
    map-insert_dir d (sort_dirs dirs) ∙ ap (insert_sorted (λ k. k) (output d)) (map-sort_dirs dirs)

module _ (P : Bytes → Type 0) where
  All-placed :
      (o : Ordering) (d e : Bytes) (dirs rest : List Bytes)
      → P d
      → All P (e ∷ dirs)
      → All P rest
      → All P (elim o [
        | Ordering.gt ↦ e ∷ rest
        | Ordering.lt ↦ d ∷ e ∷ dirs
        | Ordering.eq ↦ d ∷ e ∷ dirs
      ])
  All-placed Ordering.gt d e dirs rest h all below = (all.0, below)
  All-placed Ordering.lt d e dirs rest h all below = (h, all)
  All-placed Ordering.eq d e dirs rest h all below = (h, all)

  All-insert_dir : (d : Bytes) (dirs : List Bytes) → P d → All P dirs → All P (insert_dir d dirs)
  unfolding insert_dir
  All-insert_dir d [] h all = (h, tt)
  All-insert_dir d (e ∷ dirs) h all =
      All-placed (cmp_dir_keys d e) d e dirs (insert_dir d dirs) h all
        (All-insert_dir d dirs h all.1)

  pub All-sort_dirs : (dirs : List Bytes) → All P dirs → All P (sort_dirs dirs)
  unfolding sort_dirs
  All-sort_dirs [] h = tt
  All-sort_dirs (d ∷ dirs) h = All-insert_dir d (sort_dirs dirs) h.0 (All-sort_dirs dirs h.1)

pub Distinct-map-select :
    {A : Type 0} (key : A → Bytes) (p : A → Bool) (l : List A)
    → Distinct (map key l)
    → Distinct (map key (select p l))
Distinct-map-select key p [] h = tt
Distinct-map-select key p (x ∷ l) h =
    let rest = Distinct-map-select key p l h.1 in
    if-elim (λ r. Distinct (map key r)) (p x) (x ∷ select p l) (select p l)
      (All-map-select (λ y. key x ≢ y) key p l h.0, rest) rest

pub All-mapped :
    {A B : Type 0} (P : B → Type 0) (f : A → B) (l : List A)
    → All (λ x. P (f x)) l
    → All P (map f l)
All-mapped P f [] h = tt
All-mapped P f (x ∷ l) h = (h.0, All-mapped P f l h.1)

output_short : (c : ℕ) (s : Bytes) → lit "/" ≢ output (c ∷ s)
output_short c [] h = ground (arith, h)
output_short c (d ∷ s) h = ground (arith, h)

output_injective : (a b : Bytes) → output a ≡ output b → a ≡ b
output_injective [] [] h = refl
output_injective [] (c ∷ b) h = absurd (output_short c b (ground (arith, h)))
output_injective (c ∷ a) [] h = absurd (output_short c a (ground (arith, h)))
output_injective (c ∷ a) (d ∷ b) h = ground (arith, h, output_injective a b)

pub Distinct-outputs : (dirs : List Bytes) → Distinct dirs → Distinct (map output dirs)
Distinct-outputs [] h = tt
Distinct-outputs (d ∷ dirs) h = (
  All-mapped (λ y. output d ≢ y) output dirs
      (All-map_to {Q = λ e. output d ≢ output e} (λ e ne same. ne (output_injective d e same)) dirs
        h.0),
  Distinct-outputs dirs h.1,
)
