-- ===== src/SortedListing/Collect.antt =====
-- Pages of a whole listing: what collect_page of src/s3/sorted_listing.rs answers when the lister
-- shows a tree.
use hdfs_s3_gateway.Prelude.{
  ℕ, zero, suc, ◌≤◌, ◌<◌, ◌≡◌, ◌≢◌, inl, inr, map, All, ◌=?◌, =?_iff, =?_false, Bool-cases, refl,
  sym, ap, subst, ◌∙◌, Bool, true, false, ◌&&◌, Bytes, starts_with, starts_with-append, append-nil,
  ltb, ◌==◌, if◌then◌else◌, Option, List, [], ◌∷◌, ◌++◌, length, take, arith,
}
use hdfs_s3_gateway.Path.{PathMapper}
use hdfs_s3_gateway.Listing.{ListEntry, DirListing}
use hdfs_s3_gateway.Listing.Sorting.{Distinct}
use hdfs_s3_gateway.SortedListing.{Listed, listed, new, push_listing}
use hdfs_s3_gateway.SortedListing.Merge.{page, fill_page, collect_page}
use hdfs_s3_gateway.SortedListing.Counting.{count, count_mono, has_key}
use hdfs_s3_gateway.SortedListing.Tree.{Tree, tree_files, tree_size, IsTree, HasNoSlash, Shows}
use hdfs_s3_gateway.SortedListing.Frontier.{frontier_files}
use hdfs_s3_gateway.SortedListing.Opening.{wanted, push_listing-Opened}
use hdfs_s3_gateway.SortedListing.Pages.{
  flat_listing, count-flat_listing, flat_listing-Ordered, flat_listing_ext, HasUniqueKeys,
  fill_page_lem, collect_seeded,
}

-- The lister shows a tree below the start directory, in which no key is there twice.
pub record HasTree (mapper : PathMapper) (list_dir : Bytes → Listed) (root start : Bytes) (t : Tree)
    : Type 0 where
  pub listing : DirListing
  pub is_listed : list_dir start ≡ listed listing
  pub shows : Shows mapper list_dir listing t
  pub is_tree : IsTree root t
  pub unique : Distinct (map (λ e. e.key) (tree_files t))

absent :
    (k : Bytes) (l : List ListEntry)
    → All (λ y. k ≢ y) (map (λ e. e.key) l)
    → count (has_key k) l ≡ 0
absent k [] h = refl
absent k (x ∷ l) h = ground (arith, =?_false x.key k (λ e. h.0 (sym e)), absent k l h.1)

unique-Distinct : (l : List ListEntry) → Distinct (map (λ e. e.key) l) → HasUniqueKeys l
unique-Distinct [] h k = omega arith
unique-Distinct (x ∷ l) h k = elim (Bool-cases (x.key =? k)) [
  | inl e ↦
      let same = (=?_iff x.key k).0 e in
      ground (arith, e, absent k l (subst (λ j. All (λ y. j ≢ y) (map (λ f. f.key) l)) same h.0))
  | inr e ↦ ground (arith, e, unique-Distinct l h.1 k)
]

nonzero : (n : ℕ) → (suc n == 0) ≡ false
nonzero n = ground arith

positive : (n : ℕ) → ltb 0 (suc n) ≡ true
positive n = ground arith

count-append_nil : (p : ListEntry → Bool) (l : List ListEntry) → count p (l ++ []) ≡ count p l
count-append_nil p l = ap (count p) (append-nil l)

once_wanted :
    (prefix : Bytes) (after : Option Bytes) (files : List ListEntry)
    → HasUniqueKeys files
    → (k : Bytes) → count (λ e. wanted prefix after e && has_key k e) files ≤ 1
once_wanted prefix after files unique k =
    let fewer =
      count_mono (λ e. wanted prefix after e && has_key k e) (has_key k) (λ e h. ground (arith, h))
        files in
    omega (arith, fewer, unique k)

once_in :
    (prefix : Bytes) (after : Option Bytes) (files l : List ListEntry)
    → HasUniqueKeys files
    → ((p : ListEntry → Bool)
        → count (λ e. wanted prefix after e && p e) l
          ≡ count (λ e. wanted prefix after e && p e) (files ++ []))
    → (k : Bytes) → count (λ e. wanted prefix after e && has_key k e) l ≤ 1
once_in prefix after files l unique same k =
    let there =
      same (has_key k) ∙ count-append_nil (λ e. wanted prefix after e && has_key k e) files in
    omega (arith, there, once_wanted prefix after files unique k)

-- `collect_page` answers with the first `max_keys` files of the tree that match the prefix and come
-- after the marker, in key order, and says whether there are more, when the lister shows a tree of
-- distinct keys, the prefix has no slash behind the start directory's key, and the fuel exceeds the
-- tree's size.
pub collect_page_lem :
    (mapper : PathMapper) (list_dir : Bytes → Listed) (root stem : Bytes) (after : Option Bytes)
    (start : Bytes) (t : Tree) (fuel max_keys : ℕ)
    → HasNoSlash stem
    → HasTree mapper list_dir root start t
    → tree_size t < fuel
    → collect_page list_dir fuel (new start (root ++ stem) after mapper) max_keys
      ≡ page (take max_keys (flat_listing (root ++ stem) after (tree_files t))) (
          ltb 0 max_keys
          && ltb max_keys (length (flat_listing (root ++ stem) after (tree_files t))))
unfolding collect_page
collect_page_lem mapper list_dir root stem after start t fuel zero slashless h enough = refl
collect_page_lem mapper list_dir root stem after start t fuel (suc n) slashless h enough =
    let prefix = root ++ stem in
    let self = ap (λ r. starts_with r root) (sym (append-nil root)) ∙ starts_with-append root [] in
    let (gs, valid, counts, small) =
      push_listing-Opened mapper list_dir root prefix after h.listing root t [] [] self h.is_tree
        h.shows (tt, (tt, tt)) in
    let all = flat_listing prefix after (tree_files t) in
    let unique = unique-Distinct (tree_files t) h.unique in
    let once = once_in prefix after (tree_files t) (frontier_files gs) unique counts in
    let same =
      flat_listing_ext prefix after (flat_listing prefix after (frontier_files gs)) (tree_files t)
        (flat_listing-Ordered prefix after (frontier_files gs))
        (λ p.
          count-flat_listing prefix after p (frontier_files gs)
          ∙ counts p
          ∙ count-append_nil (λ e. wanted prefix after e && p e) (tree_files t))
        (once_wanted prefix after (tree_files t) unique) in
    ap
      (λ b.
        if b
        then page [] false
        else fill_page list_dir fuel (suc n) (new start prefix after mapper) [])
      (nonzero n)
    ∙ collect_seeded mapper list_dir root stem after start slashless fuel n h.listing h.is_listed
    ∙ fill_page_lem mapper list_dir root stem after start slashless fuel (suc n)
        (push_listing after h.listing []) gs [] valid once (omega (arith, small, enough))
    ∙ ap (λ l. page (take (suc n) l) (ltb (suc n) (length l))) same
    ∙ ap (λ b. page (take (suc n) all) (b && ltb (suc n) (length all))) (sym (positive n))
