-- ===== src/Gateway/Tokens.antt =====
-- The token of a truncated page (list_objects_v2 of src/s3/mod.rs, over paginate, paginate_slash and
-- collect_page).
use hdfs_s3_gateway.Prelude.{
  ℕ, zero, suc, ◌+◌, ◌≤◌, ◌<◌, ◌≡◌, refl, sym, ap, ◌∙◌, Bool, true, false, Bool-cases, Option-cases,
  inl, inr, Bytes, lit, ◌=?◌, ltb, ◌==◌, min, if◌then◌else◌, Option, none, some, List, [], ◌∷◌,
  ◌++◌, map, length, length-append, take, last?, arith,
}
use hdfs_s3_gateway.Path.{PathMapper, list_start}
use hdfs_s3_gateway.Listing.{ListEntry}
use hdfs_s3_gateway.Listing.Paginate.{
  Page, sort, sort_by, retain_after, common_vec, paginate, cut_page,
}
use hdfs_s3_gateway.Listing.Contents.{list_to_contents}
use hdfs_s3_gateway.SortedListing.{Listed, listed, failed, SortedListing, is_file_not_found}
use hdfs_s3_gateway.SortedListing.Merge.{
  Paged, page, page_error, page_out_of_fuel, Pulled, entry, none_left, error, out_of_fuel,
  next_entry, probe, fill_page, collect_page,
}
use hdfs_s3_gateway.Gateway.Listings.{
  paged, is_some, slash_listed, slash_page, delimiter_page, subtree, flat_page, flat_entries,
  choose,
}
use hdfs_s3_gateway.Gateway.SlashTokens.{HasToken, empty_page, if-HasToken, paginate_slash-HasToken}

last_of_take : (n : ℕ) (l : List Bytes) → 1 ≤ n → n < length l → is_some (last? (take n l)) ≡ true
last_of_take zero l h k = absurd (omega arith)
last_of_take (suc n) [] h k = absurd (omega arith)
last_of_take (suc zero) (x ∷ l) h k = refl
last_of_take (suc (suc n)) (x ∷ []) h k = refl
last_of_take (suc (suc n)) (x ∷ y ∷ l) h k =
    last_of_take (suc n) (y ∷ l) (omega arith) (omega arith)

cut_token :
    (m : ℕ) (l : List Bytes)
    → 1 ≤ m
    → ltb (min m (length l)) (length l)
      ≡ is_some
          (if ltb (min m (length l)) (length l) then last? (take (min m (length l)) l) else none)
cut_token m l h =
    let cut = λ (b : Bool). is_some (if b then last? (take (min m (length l)) l) else none) in
    elim (Bool-cases (ltb (min m (length l)) (length l))) [
      | inl e ↦
          e
          ∙ sym
              (ap cut e ∙ last_of_take (min m (length l)) l (ground (arith, e)) (ground (arith, e)))
      | inr e ↦ e ∙ sym (ap cut e)
    ]

cut_page-HasToken :
    (contents : List ListEntry) (common : List Bytes) (max_keys : ℕ)
    → 1 ≤ max_keys
    → HasToken (cut_page contents common max_keys)
unfolding cut_page
cut_page-HasToken contents common max_keys h =
    cut_token max_keys (sort (map (λ e. e.key) contents ++ common)) h

paginate-HasToken :
    (files : List ListEntry) (dirs : List Bytes) (prefix : Bytes) (delimiter marker : Option Bytes)
    (max_keys : ℕ)
    → HasToken (paginate files dirs prefix delimiter marker max_keys)
unfolding paginate
paginate-HasToken files dirs prefix delimiter marker zero = refl
paginate-HasToken files dirs prefix delimiter marker (suc n) =
    let contents =
      retain_after (λ e. e.key) marker
        (sort_by (λ e. e.key) (list_to_contents files prefix delimiter).0) in
    let common = retain_after (λ k. k) marker (common_vec files dirs prefix delimiter) in
    if-HasToken (suc n == 0) empty_page (cut_page contents common (suc n)) refl
      (cut_page-HasToken contents common (suc n) (omega arith))

module _ (list_dir : Bytes → Listed) (fuel : ℕ) where
  probe_answer :
      (x : Pulled) (entries es : List ListEntry)
      → (elim x as (λ y. Paged) [
        | entry e s ↦ page entries true
        | none_left s ↦ page entries false
        | error e s ↦ page_error e
        | out_of_fuel ↦ page_out_of_fuel
      ])
        ≡ page es true
      → length es ≡ length entries
  probe_answer (entry e s) entries es h = ground (arith, h)
  probe_answer (none_left s) entries es h = absurd (ground (arith, h))
  probe_answer (error e s) entries es h = absurd (ground (arith, h))
  probe_answer out_of_fuel entries es h = absurd (ground (arith, h))

  fill_answer :
      (left : ℕ) (x : Pulled) (entries es : List ListEntry)
      → ((s : SortedListing) (entries' : List ListEntry)
          → fill_page list_dir fuel left s entries' ≡ page es true
          → length es ≡ left + length entries')
      → (elim x as (λ y. Paged) [
        | entry e s ↦ fill_page list_dir fuel left s (entries ++ (e ∷ []))
        | none_left s ↦ page entries false
        | error e s ↦ page_error e
        | out_of_fuel ↦ page_out_of_fuel
      ])
        ≡ page es true
      → length es ≡ suc left + length entries
  fill_answer left (entry e s) entries es ih h =
      omega (arith, ih s (entries ++ (e ∷ [])) h, length-append entries (e ∷ []))
  fill_answer left (none_left s) entries es ih h = absurd (ground (arith, h))
  fill_answer left (error e s) entries es ih h = absurd (ground (arith, h))
  fill_answer left out_of_fuel entries es ih h = absurd (ground (arith, h))

  probe_length :
      (s : SortedListing) (entries es : List ListEntry)
      → probe list_dir fuel s entries ≡ page es true
      → length es ≡ length entries
  unfolding probe
  probe_length s entries es h = probe_answer (next_entry list_dir fuel s) entries es h

  fill_length :
      (left : ℕ) (s : SortedListing) (entries es : List ListEntry)
      → fill_page list_dir fuel left s entries ≡ page es true
      → length es ≡ left + length entries
  unfolding fill_page
  fill_length zero s entries es h = omega (arith, probe_length s entries es h)
  fill_length (suc left) s entries es h =
      fill_answer left (next_entry list_dir fuel s) entries es
        (λ s' entries' k. fill_length left s' entries' es k) h

  collect_length :
      (s : SortedListing) (n : ℕ) (es : List ListEntry)
      → collect_page list_dir fuel s n ≡ page es true
      → 1 ≤ length es
  unfolding collect_page
  collect_length s zero es h = absurd (ground (arith, h))
  collect_length s (suc n) es h =
      let filled : fill_page list_dir fuel (suc n) s [] ≡ page es true = ground (arith, h) in
      omega (arith, fill_length (suc n) s [] es filled)

  last_key : (es : List ListEntry) → 1 ≤ length es → is_some (last? (map (λ e. e.key) es)) ≡ true
  last_key [] h = absurd (omega arith)
  last_key (x ∷ []) h = refl
  last_key (x ∷ y ∷ es) h = last_key (y ∷ es) (omega arith)

  flat-HasToken :
      (x : Paged) (p : Page)
      → ((es : List ListEntry) → x ≡ page es true → 1 ≤ length es)
      → flat_page x ≡ paged p
      → HasToken p
  unfolding flat_page
  flat-HasToken (page es true) p long h = ground (arith, h, last_key es (long es refl))
  flat-HasToken (page es false) p long h = ground (arith, h)
  flat-HasToken (page_error e) p long h = absurd (ground (arith, h))
  flat-HasToken page_out_of_fuel p long h = absurd (ground (arith, h))

  flat_entries_length :
      (mapper : PathMapper) (prefix : Bytes) (after : Option Bytes) (n : ℕ) (es : List ListEntry)
      → flat_entries list_dir fuel mapper prefix after n ≡ page es true
      → 1 ≤ length es
  unfolding flat_entries
  flat_entries_length mapper prefix after n es h = elim (Option-cases (list_start mapper prefix)) [
    | inl e ↦ absurd (ground (arith, h, e))
    | inr (start, e) ↦
        let s = hdfs_s3_gateway.SortedListing.new start prefix after mapper in
        collect_length s n es (ground (arith, h, e))
  ]

  slash_listed-HasToken :
      (prefix : Bytes) (after : Option Bytes) (n : ℕ) (l : Listed) (p : Page)
      → slash_listed prefix after n l ≡ paged p
      → HasToken p
  unfolding slash_listed
  slash_listed-HasToken prefix after n (listed l) p h =
      ground (arith, h, paginate_slash-HasToken l.files l.dirs prefix after n)
  slash_listed-HasToken prefix after n (failed e) p h = elim (Bool-cases (is_file_not_found e)) [
    | inl b ↦ ground (arith, h, b, paginate_slash-HasToken [] [] prefix after n)
    | inr b ↦ absurd (ground (arith, h, b))
  ]

  slash_page-HasToken :
      (mapper : PathMapper) (prefix : Bytes) (after : Option Bytes) (n : ℕ) (p : Page)
      → slash_page list_dir mapper prefix after n ≡ paged p
      → HasToken p
  unfolding slash_page
  slash_page-HasToken mapper prefix after n p h = elim (Option-cases (list_start mapper prefix)) [
    | inl e ↦ ground (arith, h, e, paginate_slash-HasToken [] [] prefix after n)
    | inr (start, e) ↦
        slash_listed-HasToken prefix after n (list_dir start) p (ground (arith, h, e))
  ]

  delimiter_page-HasToken :
      (prefix : Bytes) (delimiter after : Option Bytes) (n : ℕ) (x : Paged) (p : Page)
      → delimiter_page prefix delimiter after n x ≡ paged p
      → HasToken p
  unfolding delimiter_page
  delimiter_page-HasToken prefix delimiter after n (page es b) p h =
      ground (arith, h, paginate-HasToken es [] prefix delimiter after n)
  delimiter_page-HasToken prefix delimiter after n (page_error e) p h = absurd (ground (arith, h))
  delimiter_page-HasToken prefix delimiter after n page_out_of_fuel p h = absurd (ground (arith, h))

  -- Whatever the lister answers and whichever strategy the delimiter chooses, a page that
  -- ListObjectsV2 answers with is truncated exactly when it has a token to go on with.
  pub choose-HasToken :
      (mapper : PathMapper) (prefix : Bytes) (delimiter after : Option Bytes) (max_keys : ℕ)
      (p : Page)
      → choose list_dir fuel mapper prefix delimiter after max_keys ≡ paged p
      → p.is_truncated ≡ is_some p.next_token
  unfolding choose
  choose-HasToken mapper prefix none after n p h =
      flat-HasToken (flat_entries list_dir fuel mapper prefix after n) p
        (flat_entries_length mapper prefix after n) h
  choose-HasToken mapper prefix (some d) after n p h = elim (Bool-cases (d =? lit "/")) [
    | inl b ↦ slash_page-HasToken mapper prefix after n p (ground (arith, h, b))
    | inr b ↦
        let found = subtree list_dir fuel mapper prefix after n in
        delimiter_page-HasToken prefix (some d) after n found p (ground (arith, h, b))
  ]
