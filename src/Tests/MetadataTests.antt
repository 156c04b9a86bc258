-- ===== src/Tests/MetadataTests.antt =====
-- ETags of two objects.
use hdfs_s3_gateway.Prelude.{◌≡◌, refl, false, lit, none, some, [], ◌∷◌, arith}
use hdfs_s3_gateway.Metadata.{ObjectMetadata, etag}
use hdfs_s3_gateway.Metadata.Etag.{IsValid, etag_source, etag_injective}

abbrev with_checksum : ObjectMetadata
with_checksum = record {
  path = lit "/data/a/b.txt";
  length = 1024;
  is_dir = false;
  modification_time = 0;
  checksum = some (222 ∷ 173 ∷ 190 ∷ 239 ∷ []);
}

abbrev without_checksum : ObjectMetadata
without_checksum = record {
  path = lit "/data/a/b.txt";
  length = 1024;
  is_dir = false;
  modification_time = 1700000000000;
  checksum = none;
}

abbrev moved : ObjectMetadata
moved = record {
  path = lit "/data/c.txt";
  length = 1024;
  is_dir = false;
  modification_time = 7;
  checksum = some (222 ∷ 173 ∷ 190 ∷ 239 ∷ []);
}

etag-moved : etag with_checksum ≡ etag moved
unfolding etag
etag-moved = refl

moved-IsValid : IsValid moved
moved-IsValid =
    (omega arith, omega arith, (omega arith, (omega arith, (omega arith, (omega arith, tt)))))

etag_hex : etag with_checksum ≡ lit "deadbeef"
unfolding etag
etag_hex = refl

etag_fallback : etag without_checksum ≡ lit "hdfs-400-18bcfe56800"
unfolding etag
etag_fallback = refl

with_checksum-IsValid : IsValid with_checksum
with_checksum-IsValid =
    (omega arith, omega arith, (omega arith, (omega arith, (omega arith, (omega arith, tt)))))

etag_injective_example : etag_source with_checksum ≡ etag_source moved
etag_injective_example =
    etag_injective with_checksum moved with_checksum-IsValid moved-IsValid etag-moved
