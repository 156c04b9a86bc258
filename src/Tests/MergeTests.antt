-- ===== src/Tests/MergeTests.antt =====
-- A flat listing of a directory with one subdirectory.
use hdfs_s3_gateway.Prelude.{
  ◌<◌, ◌≡◌, refl, true, false, ◌&&◌, Bytes, lit, ◌=?◌, starts_with, cmp_bytes, ltb, none, some, [],
  ◌∷◌, ◌++◌, map, length, take, last?, arith, if◌then◌else◌,
}
use hdfs_s3_gateway.Error.{HdfsError}
use hdfs_s3_gateway.Path.{PathMapper, list_start, key_to_hdfs_path}
use hdfs_s3_gateway.Listing.{ListEntry}
use hdfs_s3_gateway.Listing.Sorting.{Distinct}
use hdfs_s3_gateway.SortedListing.{Listed, listed, failed, new}
use hdfs_s3_gateway.SortedListing.Merge.{page, collect_page}
use hdfs_s3_gateway.SortedListing.Tree.{
  Tree, node, leaf, branch, tree_files, tree_size, IsTree, Shows,
}
use hdfs_s3_gateway.SortedListing.Pages.{flat_listing}
use hdfs_s3_gateway.SortedListing.Collect.{HasTree, collect_page_lem}
use hdfs_s3_gateway.Listing.Paginate.{Page}
use hdfs_s3_gateway.Gateway.Listings.{paged, is_some, choose}
use hdfs_s3_gateway.Gateway.FlatPages.{choose_flat}
use hdfs_s3_gateway.Gateway.Tokens.{choose-HasToken}

abbrev file : Bytes → ListEntry
file k = record { key = k; size = 1; modification_time = 0 }

abbrev mapper : PathMapper
mapper = record { root = lit "/data"; bucket = lit "bucket" }

abbrev tree : Tree
tree =
    node (file (lit "a.txt") ∷ file (lit "b") ∷ [])
      (branch (lit "a") (node (file (lit "a/x") ∷ []) leaf) leaf)

list_dir : Bytes → Listed
list_dir path =
    if path =? lit "/data"
    then listed (record { files = file (lit "a.txt") ∷ file (lit "b") ∷ []; dirs = lit "a" ∷ [] })
    else if path =? lit "/data/a"
    then listed (record { files = file (lit "a/x") ∷ []; dirs = [] })
    else failed (HdfsError.file_not_found path)

merge_runs :
    collect_page list_dir 9 (new (lit "/data") [] none mapper) 2
    ≡ page (file (lit "a.txt") ∷ file (lit "a/x") ∷ []) true
unfolding collect_page new list_dir key_to_hdfs_path cmp_bytes starts_with ◌=?◌
merge_runs = refl

merge_resumes :
    collect_page list_dir 9 (new (lit "/data") [] (some (lit "a.txt")) mapper) 2
    ≡ page (file (lit "a/x") ∷ file (lit "b") ∷ []) false
unfolding collect_page new list_dir key_to_hdfs_path cmp_bytes starts_with ◌=?◌
merge_resumes = refl

keys_Distinct : Distinct (map (λ e. e.key) (tree_files tree))
unfolding tree_files cmp_bytes
keys_Distinct = (
  ((λ e. ground (arith, e)), ((λ e. ground (arith, e)), tt)),
  (((λ e. ground (arith, e)), tt), (tt, tt)),
)

has_tree : HasTree mapper list_dir [] (lit "/data") tree
unfolding list_dir Shows IsTree key_to_hdfs_path cmp_bytes starts_with ◌=?◌
has_tree = record {
  listing = record { files = file (lit "a.txt") ∷ file (lit "b") ∷ []; dirs = lit "a" ∷ [] };
  is_listed = refl;
  shows = (refl, refl, ((refl, refl, tt), tt));
  is_tree = (
    (refl, (refl, tt)),
    ((refl, tt), (tt, tt)),
    (((lit "a"), refl, ((λ e. ground (arith, e)), tt)), tt, ((refl, tt), (tt, tt), tt), tt),
  );
  unique = keys_Distinct;
}

small_tree : tree_size tree < 9
unfolding tree_size
small_tree = omega arith

collect_page_lem_example :
    collect_page list_dir 9 (new (lit "/data") ([] ++ []) none mapper) 2
    ≡ page
        (take 2 (flat_listing ([] ++ []) none (tree_files tree)))
        (ltb 0 2 && ltb 2 (length (flat_listing ([] ++ []) none (tree_files tree))))
collect_page_lem_example =
    collect_page_lem mapper list_dir [] [] none (lit "/data") tree 9 2 tt has_tree small_tree

data_start : list_start mapper ([] ++ []) ≡ some (lit "/data")
unfolding list_start key_to_hdfs_path starts_with ◌=?◌
data_start = refl

choose_flat_example :
    choose list_dir 9 mapper ([] ++ []) none none 2
    ≡ paged (record {
      contents = take 2 (flat_listing ([] ++ []) none (tree_files tree));
      common_prefixes = [];
      is_truncated = ltb 0 2 && ltb 2 (length (flat_listing ([] ++ []) none (tree_files tree)));
      next_token =
          if ltb 0 2 && ltb 2 (length (flat_listing ([] ++ []) none (tree_files tree)))
          then last? (map (λ e. e.key) (take 2 (flat_listing ([] ++ []) none (tree_files tree))))
          else none;
    })
choose_flat_example =
    choose_flat mapper list_dir [] [] none (lit "/data") tree 9 2 data_start tt has_tree small_tree

abbrev slash_contents : Page
slash_contents = record {
  contents = file (lit "a.txt") ∷ [];
  common_prefixes = [];
  is_truncated = true;
  next_token = some (lit "a.txt");
}

slash_chosen : choose list_dir 9 mapper [] (some (lit "/")) none 1 ≡ paged slash_contents
unfolding choose list_dir list_start key_to_hdfs_path cmp_bytes starts_with ◌=?◌
slash_chosen = refl

choose-HasToken_example : slash_contents.is_truncated ≡ is_some slash_contents.next_token
choose-HasToken_example =
    choose-HasToken list_dir 9 mapper [] (some (lit "/")) none 1 slash_contents slash_chosen
