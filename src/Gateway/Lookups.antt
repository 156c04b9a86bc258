-- ===== src/Gateway/Lookups.antt =====
-- Which errors the lookups of the gateway answer with (file_meta and open_reader of src/s3/mod.rs).
use hdfs_s3_gateway.Prelude.{
  Result, ok, err, ◌≡◌, refl, sym, ◌∙◌, subst, Bool, true, false, Bytes, if◌then◌else◌, Option,
  none, some, arith,
}
use hdfs_s3_gateway.Cache.{get, remove}
use hdfs_s3_gateway.Error.{HdfsError, S3Error, S3ErrorCode, s3_error, map_hdfs_error}
use hdfs_s3_gateway.SortedListing.{FileStatus}
use hdfs_s3_gateway.Gateway.{
  LruCrate, ReaderApi, Request, FileMeta, CachedReader, HdfsGateway, attach, file_meta, stat_missed,
  stat_answer, open_reader, open_fresh, is_same_file,
}

abbrev pub IsHidden : Bool → Option Bytes → Type 0
IsHidden true message = Unit
IsHidden false message = message ≡ none

abbrev pub IsRefusal : Bytes → Bool → S3Error → Type 0
IsRefusal id expose e = (e.request_id ≡ some id) × IsHidden expose e.message

-- An answer whose error, if it is one, is a refusal.
abbrev pub IsTagged : {A : Type 0} → Bytes → Bool → Result A S3Error → Type 0
IsTagged id expose (ok a) = Unit
IsTagged id expose (err e) = IsRefusal id expose e

IsHidden-none : (expose : Bool) → IsHidden expose none
IsHidden-none true = tt
IsHidden-none false = refl

pub attach-s3_error :
    (id : Bytes) (expose : Bool) (code : S3ErrorCode)
    → IsRefusal id expose (attach id (s3_error code))
unfolding attach
attach-s3_error id expose code = (refl, IsHidden-none expose)

attach-map_hdfs_error :
    (id : Bytes) (text : HdfsError → Bytes) (e : HdfsError) (expose : Bool)
    → IsRefusal id expose (attach id (map_hdfs_error text e expose))
unfolding attach map_hdfs_error
attach-map_hdfs_error id text e true = (refl, tt)
attach-map_hdfs_error id text e false = (refl, ground arith)

module _ (readers : ReaderApi) (lru : LruCrate) where
  -- An answer of a handler that left the configuration alone.
  abbrev pub IsAnswer :
      {A : Type 0}
      → HdfsGateway readers lru
      → Request readers
      → HdfsGateway readers lru × Result A S3Error
      → Type 0
  IsAnswer g r a =
      (a.0.config ≡ g.config) × IsTagged r.request_id g.config.expose_upstream_errors a.1

  pub option-IsAnswer :
      {A B : Type 0} (g : HdfsGateway readers lru) (r : Request readers) (o : Option A)
      (missed : HdfsGateway readers lru × Result B S3Error)
      (hit : A → HdfsGateway readers lru × Result B S3Error)
      → IsAnswer g r missed
      → ((a : A) → IsAnswer g r (hit a))
      → IsAnswer {A = B} g r (elim o [ none ↦ missed | some a ↦ hit a ])
  option-IsAnswer g r none missed hit m h = m
  option-IsAnswer g r (some a) missed hit m h = h a

  pub if-IsAnswer :
      {B : Type 0} (g : HdfsGateway readers lru) (r : Request readers) (b : Bool)
      (x y : HdfsGateway readers lru × Result B S3Error)
      → IsAnswer g r x
      → IsAnswer g r y
      → IsAnswer g r (if b then x else y)
  if-IsAnswer g r true x y hx hy = hx
  if-IsAnswer g r false x y hx hy = hy

  stat_answer-IsAnswer :
      (g : HdfsGateway readers lru) (r : Request readers) (path : Bytes)
      (a : Result FileStatus HdfsError)
      → IsAnswer g r (stat_answer readers lru g r path a)
  unfolding stat_answer
  stat_answer-IsAnswer g r path (ok status) = (refl, tt)
  stat_answer-IsAnswer g r path (err (HdfsError.file_not_found p)) =
      (refl, attach-s3_error r.request_id g.config.expose_upstream_errors S3ErrorCode.no_such_key)
  stat_answer-IsAnswer g r path (err e) = (
    refl,
    attach-map_hdfs_error r.request_id r.client.to_string e g.config.expose_upstream_errors,
  )

  stat_missed-IsAnswer :
      (g : HdfsGateway readers lru) (r : Request readers) (path : Bytes)
      → IsAnswer g r (stat_missed readers lru g r path)
  unfolding stat_missed
  stat_missed-IsAnswer g r path =
      let c = get (lru.api Unit) g.cache.negative (r.clock 1) path in
      let g' : HdfsGateway readers lru = record g { cache = record g.cache { negative = c.0 } } in
      option-IsAnswer g r c.1 (stat_answer readers lru g' r path (r.client.get_file_info path))
        (λ u. (g', err (attach r.request_id (s3_error S3ErrorCode.no_such_key))))
        (stat_answer-IsAnswer g' r path (r.client.get_file_info path))
        (λ u. (
          refl,
          attach-s3_error r.request_id g.config.expose_upstream_errors S3ErrorCode.no_such_key,
        ))

  pub file_meta-IsAnswer :
      (g : HdfsGateway readers lru) (r : Request readers) (path : Bytes)
      → IsAnswer g r (file_meta readers lru g r path)
  unfolding file_meta
  file_meta-IsAnswer g r path =
      let c = get (lru.api FileMeta) g.cache.metadata (r.clock 0) path in
      let g' : HdfsGateway readers lru = record g { cache = record g.cache { metadata = c.0 } } in
      option-IsAnswer g r c.1 (stat_missed readers lru g' r path) (λ meta. (g', ok meta))
        (stat_missed-IsAnswer g' r path) (λ meta. (refl, tt))

  open_fresh-IsAnswer :
      (g : HdfsGateway readers lru) (r : Request readers) (path : Bytes) (meta : FileMeta)
      (a : Result readers.Reader HdfsError)
      → IsAnswer g r (open_fresh readers lru g r path meta a)
  unfolding open_fresh
  open_fresh-IsAnswer g r path meta (ok reader) = (refl, tt)
  open_fresh-IsAnswer g r path meta (err e) = (
    refl,
    attach-map_hdfs_error r.request_id r.client.to_string e g.config.expose_upstream_errors,
  )

  pub open_reader-IsAnswer :
      (g : HdfsGateway readers lru) (r : Request readers) (path : Bytes) (meta : FileMeta)
      → IsAnswer g r (open_reader readers lru g r path meta)
  unfolding open_reader
  open_reader-IsAnswer g r path meta =
      let c = get (lru.api (CachedReader readers)) g.cache.blocks (r.clock 3) path in
      let a = r.client.read path in
      let g' : HdfsGateway readers lru = record g { cache = record g.cache { blocks = c.0 } } in
      let dropped : HdfsGateway readers lru = record g {
        cache = record g.cache { blocks = remove (lru.api (CachedReader readers)) c.0 path };
      } in
      option-IsAnswer g r c.1 (open_fresh readers lru g' r path meta a)
        (λ cached.
          if is_same_file readers lru cached meta
          then (g', ok cached.reader)
          else open_fresh readers lru dropped r path meta a)
        (open_fresh-IsAnswer g' r path meta a)
        (λ cached.
          if-IsAnswer g r (is_same_file readers lru cached meta) (g', ok cached.reader)
            (open_fresh readers lru dropped r path meta a) (refl, tt)
            (open_fresh-IsAnswer dropped r path meta a))

  moved-IsAnswer :
      {A : Type 0} (g g' : HdfsGateway readers lru) (r : Request readers)
      (a : HdfsGateway readers lru × Result A S3Error)
      → g'.config ≡ g.config
      → IsAnswer g' r a
      → IsAnswer g r a
  moved-IsAnswer g g' r a e h =
      (h.0 ∙ e, subst (λ c. IsTagged r.request_id c.expose_upstream_errors a.1) e h.1)

  pub refused-IsAnswer :
      (A : Type 0) (g : HdfsGateway readers lru) (r : Request readers) (code : S3ErrorCode)
      → IsAnswer {A = A} g r (g, err (attach r.request_id (s3_error code)))
  refused-IsAnswer A g r code =
      (refl, attach-s3_error r.request_id g.config.expose_upstream_errors code)

  -- The `?` operator: what follows a result is an answer if the result and its continuation are.
  pub next-IsAnswer :
      {A B : Type 0} (g : HdfsGateway readers lru) (r : Request readers)
      (a : HdfsGateway readers lru × Result A S3Error)
      (next : HdfsGateway readers lru × Result A S3Error
        → HdfsGateway readers lru × Result B S3Error)
      → ((g' : HdfsGateway readers lru) (x : A) → IsAnswer g' r (next (g', ok x)))
      → ((g' : HdfsGateway readers lru) (e : S3Error) → next (g', err e) ≡ (g', err e))
      → IsAnswer g r a
      → IsAnswer g r (next a)
  next-IsAnswer g r (g', ok x) next good bad h =
      moved-IsAnswer g g' r (next (g', ok x)) h.0 (good g' x)
  next-IsAnswer g r (g', err e) next good bad h = subst (IsAnswer g r) (sym (bad g' e)) h
