-- ===== src/Gateway/RequestIds.antt =====
-- Request ids (new_request_id of src/s3/mod.rs).
use hdfs_s3_gateway.Prelude.{ℕ, ◌<◌, ◌≡◌, ◌≢◌, sym, ap, ap₂, ◌∙◌, Bytes}
use hdfs_s3_gateway.Metadata.{lower_hex}
use hdfs_s3_gateway.Metadata.Etag.{read_to_dash, read_to_dash-append}
use hdfs_s3_gateway.Metadata.Hex.{hex_value, hex_bound, hex_value-lower_hex, lower_hex-IsNoDash}
use hdfs_s3_gateway.Gateway.ReadOnly.{new_request_id}

read_id : Bytes → ℕ × ℕ
read_id id = ((read_to_dash 0 id).0, hex_value 0 (read_to_dash 0 id).1)

read_id-new_request_id :
    (micros seq : ℕ)
    → micros < hex_bound 32
    → seq < hex_bound 16
    → read_id (new_request_id micros seq).0 ≡ (micros, seq)
unfolding read_id new_request_id
read_id-new_request_id micros seq h k =
    ap (λ p. (p.0, hex_value 0 p.1))
      (read_to_dash-append 0 (lower_hex 32 micros) (lower_hex 16 seq)
        (lower_hex-IsNoDash 32 micros))
    ∙ ap₂ (λ a b. (a, b)) (hex_value-lower_hex 32 micros h) (hex_value-lower_hex 16 seq k)

-- Two requests that take different values of the counter have different ids, at whatever instants.
pub new_request_id-apart :
    (micros micros' seq seq' : ℕ)
    → micros < hex_bound 32
    → micros' < hex_bound 32
    → seq < hex_bound 16
    → seq' < hex_bound 16
    → seq ≢ seq'
    → (new_request_id micros seq).0 ≢ (new_request_id micros' seq').0
new_request_id-apart micros micros' seq seq' h h' k k' ne e = ne (
    ap (λ p. p.1)
      (sym (read_id-new_request_id micros seq h k)
        ∙ ap read_id e
        ∙ read_id-new_request_id micros' seq' h' k'))
