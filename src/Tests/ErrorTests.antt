-- ===== src/Tests/ErrorTests.antt =====
-- Errors of the client at concrete inputs, and the skipping of directories before a marker.
use hdfs_s3_gateway.Prelude.{
  ◌≡◌, refl, true, false, ◌||◌, Bytes, lit, starts_with, not, key_lt, ◌++◌, [], ◌&&◌, ◌=?◌,
  cmp_bytes,
}
use hdfs_s3_gateway.Error.{HdfsError, service_unavailable, error_code, map_hdfs_error, ends_with}
use hdfs_s3_gateway.Error.Exposure.{sent, map_hdfs_error_hides}
use hdfs_s3_gateway.SortedListing.{is_dir_denied, is_file_not_found, dir_children_all_before}
use hdfs_s3_gateway.SortedListing.Marker.{before_lem}

abbrev denied : HdfsError
denied = HdfsError.rpc_error (lit "x.AccessControlException") (lit "user bob, inode /secret")

abbrev no_login : HdfsError
no_login = HdfsError.sasl_error (lit "host kdc")

text : HdfsError → Bytes
text e = lit "Permission denied: user bob, inode /secret"

same_code : (map_hdfs_error text denied false).code ≡ (map_hdfs_error text no_login false).code
unfolding map_hdfs_error error_code ends_with ◌=?◌
same_code = refl

standby_code :
    error_code (HdfsError.fatal_rpc_error (lit "StandbyException") []) ≡ service_unavailable
unfolding error_code ends_with ◌=?◌
standby_code = refl

map_hdfs_error_hides_example :
    sent (map_hdfs_error text denied false) ≡ sent (map_hdfs_error text no_login false)
map_hdfs_error_hides_example = map_hdfs_error_hides text text denied no_login same_code

denied_skipped : (is_dir_denied denied || is_file_not_found denied) ≡ true
unfolding is_dir_denied ends_with ◌=?◌
denied_skipped = refl

sibling_skipped : dir_children_all_before (lit "a") (lit "ab") ≡ true
unfolding dir_children_all_before cmp_bytes
sibling_skipped = refl

before_lem_example :
    dir_children_all_before (lit "a") (lit "ab")
    ≡ (key_lt (lit "a" ++ lit "/") (lit "ab") && not (starts_with (lit "ab") (lit "a" ++ lit "/")))
before_lem_example = before_lem (lit "a") (lit "ab")
