-- ===== src/Gateway/Opening.antt =====
-- Which reader a GetObject opens (open_reader of src/s3/mod.rs).
use hdfs_s3_gateway.Prelude.{
  ◌≡◌, inl, inr, true, Bytes, ◌⊎◌, Option-cases, Bool-cases, Result, ok, err, some, arith,
}
use hdfs_s3_gateway.Error.{HdfsError}
use hdfs_s3_gateway.Cache.{get, remove}
use hdfs_s3_gateway.Gateway.{
  LruCrate, ReaderApi, Request, FileMeta, CachedReader, HdfsGateway, open_reader, open_fresh,
  is_same_file,
}

module _ (readers : ReaderApi) (lru : LruCrate) where
  -- Where a reader of a path comes from: the client opened the path, or the reader is cached for it
  -- and was opened when the file had this length and this time.
  abbrev pub IsReaderOf :
      HdfsGateway readers lru → Request readers → Bytes → FileMeta → readers.Reader → Type 0
  IsReaderOf g r path status reader =
      (r.client.read path ≡ ok reader)
      ⊎ ((cached : CachedReader readers) × ((get (lru.api (CachedReader readers)) g.cache.blocks
              (r.clock 3) path).1
            ≡ some cached)
          × (cached.reader ≡ reader)
          × (cached.length ≡ status.length)
          × (cached.modification_time ≡ status.modification_time))

  open_fresh-read :
      (g : HdfsGateway readers lru) (r : Request readers) (path : Bytes) (meta : FileMeta)
      (a : Result readers.Reader HdfsError) (reader : readers.Reader)
      → (open_fresh readers lru g r path meta a).1 ≡ ok reader
      → a ≡ ok reader
  unfolding open_fresh
  open_fresh-read g r path meta (ok x) reader h = ground (arith, h)
  open_fresh-read g r path meta (err e) reader h = absurd (ground (arith, h))

  is_same_file-eq :
      (cached : CachedReader readers) (meta : FileMeta)
      → is_same_file readers lru cached meta ≡ true
      → (cached.length ≡ meta.length) × (cached.modification_time ≡ meta.modification_time)
  unfolding is_same_file
  is_same_file-eq cached meta h = (ground (arith, h), ground (arith, h))

  pub open_reader-IsReaderOf :
      (g : HdfsGateway readers lru) (r : Request readers) (path : Bytes) (meta : FileMeta)
      (reader : readers.Reader)
      → (open_reader readers lru g r path meta).1 ≡ ok reader
      → IsReaderOf g r path meta reader
  unfolding open_reader
  open_reader-IsReaderOf g r path meta reader h =
      let c = get (lru.api (CachedReader readers)) g.cache.blocks (r.clock 3) path in
      let a = r.client.read path in
      let g' : HdfsGateway readers lru = record g { cache = record g.cache { blocks = c.0 } } in
      let dropped : HdfsGateway readers lru = record g {
        cache = record g.cache { blocks = remove (lru.api (CachedReader readers)) c.0 path };
      } in
      elim (Option-cases c.1) [
        | inl e ↦ inl (open_fresh-read g' r path meta a reader (ground (arith, h, e)))
        | inr (cached, e) ↦ elim (Bool-cases (is_same_file readers lru cached meta)) [
          | inl same ↦
              let (long, late) = is_same_file-eq cached meta same in
              inr (cached, e, ground (arith, h, e, same), long, late)
          | inr other ↦
              inl (open_fresh-read dropped r path meta a reader (ground (arith, h, e, other)))
        ]
      ]
