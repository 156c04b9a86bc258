-- ===== src/Tests/SlashTests.antt =====
-- One directory with names that are prefixes of each other, in pages under the delimiter `/`.
use hdfs_s3_gateway.Prelude.{
  ◌≡◌, refl, true, false, Bytes, lit, ◌=?◌, starts_with, strip_prefix, cmp_bytes, if◌then◌else◌,
  none, some, List, [], ◌∷◌, ◌++◌, arith,
}
use hdfs_s3_gateway.Error.{HdfsError}
use hdfs_s3_gateway.Listing.Paginate.{paginate}
use hdfs_s3_gateway.Listing.Slash.{paginate_slash}
use hdfs_s3_gateway.Path.{PathMapper, render}
use hdfs_s3_gateway.Path.Segments.{is_name, has}
use hdfs_s3_gateway.Path.Containment.{IsRooted}
use hdfs_s3_gateway.Path.Children.{base_of}
use hdfs_s3_gateway.SortedListing.{FileStatus, Listed, listed, failed, listing_from_statuses}
use hdfs_s3_gateway.Gateway.Listings.{paged, choose}
use hdfs_s3_gateway.Gateway.SlashPages.{IsFullAnswer, choose-eq-paginate}

abbrev mapper : PathMapper
mapper = record { root = lit "/data"; bucket = lit "b" }

abbrev directory : Bytes → FileStatus
directory path = record { path = path; length = 0; isdir = true; modification_time = 0 }

abbrev file : Bytes → FileStatus
file path = record { path = path; length = 1; isdir = false; modification_time = 0 }

abbrev statuses : List FileStatus
statuses =
    directory (lit "/data/d/0")
    ∷ file (lit "/data/d/0!")
    ∷ directory (lit "/data/d/0 ")
    ∷ file (lit "/data/d/x")
    ∷ []

abbrev root_names : List Bytes
root_names = lit "data" ∷ []

mapper-IsRooted : IsRooted mapper root_names
unfolding render is_name ◌=?◌
mapper-IsRooted = record { root_path = refl; root_names = (refl, tt) }

statuses-IsFullAnswer : IsFullAnswer mapper root_names mapper-IsRooted (lit "d" ∷ []) statuses
unfolding render is_name ◌=?◌
statuses-IsFullAnswer = record {
  children = (
    (lit "0", refl, refl),
    ((lit "0!", refl, refl), ((lit "0 ", refl, refl), ((lit "x", refl, refl), tt))),
  );
  distinct = (
    (λ h. ground (arith, h), (λ h. ground (arith, h), (λ h. ground (arith, h), tt))),
    (
      (λ h. ground (arith, h), (λ h. ground (arith, h), tt)),
      ((λ h. ground (arith, h), tt), (tt, tt)),
    ),
  );
}

-- The client knows this one directory.
abbrev list_dir : Bytes → Listed
list_dir path =
    if path =? lit "/data/d"
    then listed (listing_from_statuses statuses mapper)
    else failed (HdfsError.file_not_found path)

first_page :
    (paginate_slash
      (listing_from_statuses statuses mapper).files
      (listing_from_statuses statuses mapper).dirs
      (lit "d/0")
      none
      2).common_prefixes
    ≡ lit "d/0 /" ∷ []
unfolding paginate_slash listing_from_statuses starts_with strip_prefix ◌=?◌ cmp_bytes
first_page = refl

choose-eq-paginate_example :
    choose list_dir 0 mapper
      (base_of (lit "d" ∷ []) ++ lit "0")
      (some (lit "/"))
      (some (lit "d/0 /"))
      2
    ≡ paged (
        paginate
          (listing_from_statuses statuses mapper).files
          (listing_from_statuses statuses mapper).dirs
          (base_of (lit "d" ∷ []) ++ lit "0")
          (some (lit "/"))
          (some (lit "d/0 /"))
          2)
choose-eq-paginate_example =
    choose-eq-paginate mapper root_names mapper-IsRooted list_dir 0 (lit "d" ∷ []) (lit "0")
      statuses (some (lit "d/0 /")) 2 (unfold is_name ◌=?◌ in (refl, tt)) (unfold has in refl)
      (λ h. ground (arith, h)) (λ h. ground (arith, h)) statuses-IsFullAnswer
      (unfold render ◌=?◌ in refl)
