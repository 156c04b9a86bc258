-- ===== src/Tests/ListingTests.antt =====
-- A listing of four files and two directories, in pages of two keys.
use hdfs_s3_gateway.Prelude.{
  ◌||◌, ◌≡◌, refl, ap, false, Bytes, lit, cmp_bytes, ◌=?◌, Option, none, some, List, [], ◌∷◌, ◌++◌,
  map, length, take, arith,
}
use hdfs_s3_gateway.Listing.{ListEntry, cmp_dir_output}
use hdfs_s3_gateway.Listing.Compare.{cmp_dir_output-eq-cmp_bytes}
use hdfs_s3_gateway.Listing.Contents.{list_to_contents}
use hdfs_s3_gateway.Listing.Paginate.{contains, paginate, sort_by, common_vec}
use hdfs_s3_gateway.Listing.Sorting.{Ascending, Distinct, Ascending-Distinct}
use hdfs_s3_gateway.Listing.Whole.{listing_keys, listing_keys-Ascending}
use hdfs_s3_gateway.Listing.Pages.{
  page_keys, keys_after, IsToken, page_keys-paginate, paginate-IsToken,
}
use hdfs_s3_gateway.Listing.Members.{contains-listing_keys}
use hdfs_s3_gateway.Listing.Shown.{any, shows_file, shows_dir}
use hdfs_s3_gateway.Listing.Walk.{collect, collect_complete}

abbrev file : Bytes → ListEntry
file k = record { key = k; size = 1; modification_time = 0 }

abbrev files : List ListEntry
files = file (lit "a.txt") ∷ file (lit "a/x") ∷ file (lit "a/y") ∷ file (lit "b") ∷ []

abbrev dirs : List Bytes
dirs = lit "a" ∷ lit "e" ∷ []

abbrev by_slash : Option Bytes
by_slash = some (lit "/")

files_Distinct : Distinct (map (λ e. e.key) files)
unfolding cmp_bytes
files_Distinct =
    Ascending-Distinct (map (λ e. e.key) files)
      ((refl, (refl, (refl, tt))), ((refl, (refl, tt)), ((refl, tt), (tt, tt))))

whole_keys : listing_keys files dirs [] by_slash ≡ lit "a.txt" ∷ lit "a/" ∷ lit "b" ∷ lit "e/" ∷ []
unfolding listing_keys sort_by list_to_contents cmp_bytes common_vec ◌=?◌
whole_keys = refl

first_page : page_keys (paginate files dirs [] by_slash none 2) ≡ lit "a.txt" ∷ lit "a/" ∷ []
unfolding paginate page_keys cmp_bytes ◌=?◌
first_page = refl

first_token : (paginate files dirs [] by_slash none 2).next_token ≡ some (lit "a/")
unfolding paginate cmp_bytes ◌=?◌
first_token = refl

no_keys : (paginate files dirs [] by_slash none 0).is_truncated ≡ false
unfolding paginate
no_keys = refl

collect_complete_example :
    collect 4 files dirs [] by_slash 2 none ≡ listing_keys files dirs [] by_slash
collect_complete_example =
    collect_complete files dirs [] by_slash 2 4 files_Distinct (omega arith)
      (omega (arith, ap length whole_keys))

page_keys-paginate_example :
    page_keys (paginate files dirs [] by_slash (some (lit "a/")) 1)
    ≡ take 1 (keys_after (some (lit "a/")) (listing_keys files dirs [] by_slash))
page_keys-paginate_example =
    page_keys-paginate files dirs [] by_slash files_Distinct (some (lit "a/")) 1

paginate-IsToken_example :
    IsToken
      (keys_after none (listing_keys files dirs [] by_slash))
      2
      (paginate files dirs [] by_slash none 2)
paginate-IsToken_example = paginate-IsToken files dirs [] by_slash none 2 (omega arith)

listing_keys-Ascending_example : Ascending (listing_keys files dirs [] by_slash)
listing_keys-Ascending_example = listing_keys-Ascending files dirs [] by_slash files_Distinct

cmp_dir_output-eq-cmp_bytes_example :
    cmp_dir_output (lit "a") (lit "a.txt") ≡ cmp_bytes (lit "a" ++ lit "/") (lit "a.txt")
cmp_dir_output-eq-cmp_bytes_example = cmp_dir_output-eq-cmp_bytes (lit "a") (lit "a.txt")

contains-listing_keys_example :
    contains (listing_keys files dirs [] by_slash) (lit "a/")
    ≡ (any (shows_file [] by_slash (lit "a/")) files || any (shows_dir [] by_slash (lit "a/")) dirs)
contains-listing_keys_example = contains-listing_keys files dirs [] by_slash (lit "a/")
