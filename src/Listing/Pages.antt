-- ===== src/Listing/Pages.antt =====
-- The pages of a listing: each is a slice of the sorted listing, and following the tokens gives
-- the whole (paginate of src/core/listing.rs).
use hdfs_s3_gateway.Prelude.{
  ℕ, zero, suc, ◌≤◌, ◌≡◌, refl, ap, ap₂, subst, ◌∙◌, sym, Bool, true, false, Bytes, key_lt, ltb,
  ◌==◌, if◌then◌else◌, min, Option, none, some, List, [], ◌∷◌, ◌++◌, map, length, take, last?,
  select, arith,
}
use hdfs_s3_gateway.Listing.{ListEntry}
use hdfs_s3_gateway.Listing.Compare.{min-suc, min-zero_left, min-zero_right}
use hdfs_s3_gateway.Listing.Contents.{list_to_contents}
use hdfs_s3_gateway.Listing.Paginate.{
  Page, sort_by, sort, contains, retain_after, cut_page, paginate,
}
use hdfs_s3_gateway.Listing.Sorting.{Ascending, Distinct, sort-select}
use hdfs_s3_gateway.Listing.Cutting.{
  select-contains-take, select-Ascending, select-append, map-select,
}
use hdfs_s3_gateway.Listing.Whole.{listing_keys, common_keys, listing_keys-Ascending}

-- The keys of a page, in the order of a listing.
unfoldable pub page_keys : Page → List Bytes
page_keys page = sort (map (λ e. e.key) page.contents ++ page.common_prefixes)

-- The keys after the marker.
abbrev pub is_after : Option Bytes → Bytes → Bool
is_after none k = true
is_after (some marker) k = key_lt marker k

abbrev pub keys_after : Option Bytes → List Bytes → List Bytes
keys_after marker = select (is_after marker)

take-min : (n : ℕ) (l : List Bytes) → take (min n (length l)) l ≡ take n l
take-min zero l = ap (λ m. take m l) (min-zero_left (length l))
take-min (suc n) [] = ap (λ m. take {A = Bytes} m []) (min-zero_right (suc n))
take-min (suc n) (x ∷ l) =
    ap (λ m. take m (x ∷ l)) (min-suc n (length l)) ∙ ap (x ∷◌) (take-min n l)

-- The keys of a page that is cut from an ascending whole are its first ones.
page_keys-cut_page :
    (contents : List ListEntry) (common : List Bytes) (n : ℕ)
    → Ascending (sort (map (λ e. e.key) contents ++ common))
    → page_keys (cut_page contents common n) ≡ take n (sort (map (λ e. e.key) contents ++ common))
unfolding page_keys cut_page
page_keys-cut_page contents common n h =
    let all_keys = sort (map (λ e. e.key) contents ++ common) in
    let page = take (min n (length all_keys)) all_keys in
    ap (λ l. sort (l ++ select (contains page) common))
      (map-select (λ e. e.key) (contains page) contents)
    ∙ ap sort (sym (select-append (contains page) (map (λ e. e.key) contents) common))
    ∙ sort-select (contains page) (map (λ e. e.key) contents ++ common)
    ∙ select-contains-take (min n (length all_keys)) all_keys h
    ∙ take-min n all_keys

pub select_everything : (l : List Bytes) → select (λ k. true) l ≡ l
select_everything [] = refl
select_everything (x ∷ l) = ap (x ∷◌) (select_everything l)

-- What paginate sorts after the marker's filter.
abbrev retained : List ListEntry → List Bytes → Option Bytes → List Bytes
retained contents common marker =
    map (λ e. e.key) (retain_after (λ e. e.key) marker contents)
    ++ retain_after (λ k. k) marker common

sort-retained :
    (contents : List ListEntry) (common : List Bytes) (marker : Option Bytes)
    → sort (retained contents common marker)
      ≡ keys_after marker (sort (map (λ e. e.key) contents ++ common))
unfolding retain_after
sort-retained contents common none =
    sym (select_everything (sort (map (λ e. e.key) contents ++ common)))
sort-retained contents common (some marker) =
    ap (λ l. sort (l ++ select (key_lt marker) common))
      (map-select (λ e. e.key) (key_lt marker) contents)
    ∙ ap sort (sym (select-append (key_lt marker) (map (λ e. e.key) contents) common))
    ∙ sort-select (key_lt marker) (map (λ e. e.key) contents ++ common)

-- What a page that cuts these keys says of the rest.
abbrev pub IsToken : List Bytes → ℕ → Page → Type 0
IsToken keys n page =
    (page.is_truncated ≡ ltb n (length keys))
    × (page.next_token ≡ (if ltb n (length keys) then last? (take n keys) else none))

suc_not_zero : (n : ℕ) → (suc n == 0) ≡ false
suc_not_zero n = ground arith

ltb-min : (n m : ℕ) → ltb (min n m) m ≡ ltb n m
ltb-min n m = ground arith

cut_page-IsToken :
    (contents : List ListEntry) (common : List Bytes) (n : ℕ)
    → IsToken (sort (map (λ e. e.key) contents ++ common)) n (cut_page contents common n)
unfolding cut_page
cut_page-IsToken contents common n =
    let all_keys = sort (map (λ e. e.key) contents ++ common) in
    (
      ltb-min n (length all_keys),
      ap₂ (λ b l. if b then last? l else none) (ltb-min n (length all_keys)) (take-min n all_keys),
    )

module _ (files : List ListEntry) (dirs : List Bytes) (prefix : Bytes)
    (delimiter : Option Bytes) where
  abbrev whole : List Bytes
  whole = listing_keys files dirs prefix delimiter

  abbrev sorted_contents : List ListEntry
  sorted_contents = sort_by (λ e. e.key) (list_to_contents files prefix delimiter).0

  abbrev sorted_common : List Bytes
  sorted_common = common_keys files dirs prefix delimiter

  retained-whole :
      (marker : Option Bytes)
      → sort (retained sorted_contents sorted_common marker) ≡ keys_after marker whole
  unfolding listing_keys
  retained-whole marker = sort-retained sorted_contents sorted_common marker

  paginate-some :
      (marker : Option Bytes) (n : ℕ)
      → paginate files dirs prefix delimiter marker (suc n)
        ≡ cut_page
            (retain_after (λ e. e.key) marker sorted_contents)
            (retain_after (λ k. k) marker sorted_common)
            (suc n)
  unfolding paginate
  paginate-some marker n =
      ap
        (λ b.
          if b
          then record {
            contents = [];
            common_prefixes = [];
            is_truncated = false;
            next_token = none;
          }
          else cut_page (retain_after (λ e. e.key) marker sorted_contents)
              (retain_after (λ k. k) marker sorted_common) (suc n))
        (suc_not_zero n)

  module _ (distinct : Distinct (map (λ e. e.key) files)) where
    after-Ascending : (marker : Option Bytes) → Ascending (keys_after marker whole)
    after-Ascending marker =
        select-Ascending (is_after marker) whole
          (listing_keys-Ascending files dirs prefix delimiter distinct)

    -- A page has exactly the first `max_keys` keys of the listing after the marker, Contents and
    -- CommonPrefixes together, when the files' keys are distinct.
    pub page_keys-paginate :
        (marker : Option Bytes) (max_keys : ℕ)
        → page_keys (paginate files dirs prefix delimiter marker max_keys)
          ≡ take max_keys (keys_after marker whole)
    page_keys-paginate marker zero = unfold paginate page_keys sort_by in refl
    page_keys-paginate marker (suc n) =
        let e = retained-whole marker in
        ap page_keys (paginate-some marker n)
        ∙ page_keys-cut_page (retain_after (λ e. e.key) marker sorted_contents)
            (retain_after (λ k. k) marker sorted_common) (suc n)
            (subst Ascending (sym e) (after-Ascending marker))
        ∙ ap (take (suc n)) e

  -- A page of at least one key is truncated exactly when keys are left after it, and then its token
  -- is its last key.
  pub paginate-IsToken :
      (marker : Option Bytes) (max_keys : ℕ)
      → 1 ≤ max_keys
      → IsToken
          (keys_after marker whole)
          max_keys
          (paginate files dirs prefix delimiter marker max_keys)
  paginate-IsToken marker zero h = absurd (omega arith)
  paginate-IsToken marker (suc n) h =
      let token =
        cut_page-IsToken (retain_after (λ e. e.key) marker sorted_contents)
          (retain_after (λ k. k) marker sorted_common) (suc n) in
      subst (λ (l, page). IsToken l (suc n) page)
        (ap₂ (λ l page. (l, page)) (retained-whole marker) (sym (paginate-some marker n))) token
