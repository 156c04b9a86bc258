-- ===== src/Gateway/FlatPages.antt =====
-- A page of ListObjectsV2 without a delimiter (src/s3/mod.rs, over src/s3/sorted_listing.rs).
use hdfs_s3_gateway.Prelude.{
  ℕ, ◌<◌, ◌≡◌, ap, ◌∙◌, false, ◌&&◌, Bytes, ltb, if◌then◌else◌, Option, none, some, [], ◌++◌, map,
  length, take, last?,
}
use hdfs_s3_gateway.Path.{PathMapper, list_start}
use hdfs_s3_gateway.SortedListing.{Listed}
use hdfs_s3_gateway.SortedListing.Merge.{Paged, page, collect_page}
use hdfs_s3_gateway.SortedListing.Tree.{Tree, tree_files, tree_size, HasNoSlash}
use hdfs_s3_gateway.SortedListing.Pages.{flat_listing}
use hdfs_s3_gateway.SortedListing.Collect.{HasTree, collect_page_lem}
use hdfs_s3_gateway.Gateway.Listings.{paged, flat_page, flat_entries, choose}

-- What follows the start of the listing.
abbrev from_start :
    (Bytes → Listed) → ℕ → PathMapper → Bytes → Option Bytes → ℕ → Option Bytes → Paged
from_start list_dir fuel mapper prefix after max_keys none = page [] false
from_start list_dir fuel mapper prefix after max_keys (some start) =
    collect_page list_dir fuel (hdfs_s3_gateway.SortedListing.new start prefix after mapper)
      max_keys

-- When the lister shows a tree of distinct keys below the directory where the prefix starts, the
-- prefix has no slash behind that directory's key, and the fuel exceeds the tree's size, a page
-- without delimiter has the first `max_keys` files of the tree that match the prefix and come after
-- the marker, no common prefixes, and the last of them as its token exactly if there are more.
pub choose_flat :
    (mapper : PathMapper) (list_dir : Bytes → Listed) (root stem : Bytes) (after : Option Bytes)
    (start : Bytes) (t : Tree) (fuel max_keys : ℕ)
    → list_start mapper (root ++ stem) ≡ some start
    → HasNoSlash stem
    → HasTree mapper list_dir root start t
    → tree_size t < fuel
    → (let all = flat_listing (root ++ stem) after (tree_files t) in
        let more = ltb 0 max_keys && ltb max_keys (length all) in
        choose list_dir fuel mapper (root ++ stem) none after max_keys
        ≡ paged (record {
          contents = take max_keys all;
          common_prefixes = [];
          is_truncated = more;
          next_token = if more then last? (map (λ e. e.key) (take max_keys all)) else none;
        }))
unfolding choose flat_entries flat_page
choose_flat mapper list_dir root stem after start t fuel max_keys starts slashless h enough =
    ap (λ x. flat_page (from_start list_dir fuel mapper (root ++ stem) after max_keys x)) starts
    ∙ ap flat_page
        (collect_page_lem mapper list_dir root stem after start t fuel max_keys slashless h enough)
