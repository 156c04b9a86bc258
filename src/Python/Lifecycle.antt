-- ===== src/Python/Lifecycle.antt =====
-- Starting and stopping the background server (start, stop and is_running of python/src/lib.rs).
use hdfs_s3_gateway.Prelude.{
  ◌<◌, ◌≡◌, ◌≢◌, ◌∷◌, ◌=?◌, refl, sym, ap, ◌∙◌, Bool, true, false, Bytes, lit, Option, none, some,
  [], Result, ok, err, arith,
}
use hdfs_s3_gateway.Config.{Config, invalid, zero_listing_capacity}
use hdfs_s3_gateway.Config.Load.{CliArgs, Host, unwrap_or, load, set_cache_enabled, validate}
use hdfs_s3_gateway.Config.Validity.{IsServable, load-IsLoaded}
use hdfs_s3_gateway.Python.{
  NotifyApi, NotifyLaws, ServerHost, running, finished, PyError, PyGateway, gateway_error, py_new,
  is_running, first_message, started, start, poll_shutdown, stop,
}

module _ (notify : NotifyApi) (laws : NotifyLaws notify) where
  -- What a start that succeeds leaves.
  started-ok :
      (g g' : PyGateway notify) (m : Option (Result Bytes Bytes)) (u : Unit {0})
      → started notify g m ≡ (g', ok u)
      → (g'.thread ≡ some running) × (g'.shutdown ≡ g.shutdown)
  unfolding started
  started-ok g g' (some (ok addr)) u h =
      (sym (ap (λ p. p.0.thread) h), sym (ap (λ p. p.0.shutdown) h))
  started-ok g g' (some (err e)) u h = absurd (ground (arith, ap (λ p. p.1) h))
  started-ok g g' none u h = absurd (ground (arith, ap (λ p. p.1) h))

  start-idle :
      (host : ServerHost) (g : PyGateway notify)
      → g.thread ≡ none
      → start notify host g ≡ started notify g (first_message host g.config)
  unfolding start
  start-idle host g idle = ground (arith, idle)

  start-ok :
      (host : ServerHost) (g g' : PyGateway notify)
      → g.thread ≡ none
      → start notify host g ≡ (g', ok tt)
      → (g'.thread ≡ some running) × (g'.shutdown ≡ g.shutdown)
  start-ok host g g' idle h =
      started-ok g g' (first_message host g.config) tt (sym (start-idle host g idle) ∙ h)

  stop-idle :
      (g : PyGateway notify)
      → g.thread ≡ none
      → stop notify g ≡ (record g { shutdown = notify.notify_one g.shutdown }, ok tt)
  unfolding stop
  stop-idle g idle = ground (arith, idle)

  poll_shutdown-signalled :
      (g : PyGateway notify) (n : notify.Notify)
      → g.thread ≡ some running
      → notify.notified g.shutdown ≡ some n
      → poll_shutdown notify g ≡ record g { shutdown = n; thread = some finished }
  unfolding poll_shutdown
  poll_shutdown-signalled g n up signal = ground (arith, up, signal)

  is_running-up : (g : PyGateway notify) → g.thread ≡ some running → is_running notify g ≡ true
  unfolding is_running
  is_running-up g h = ground (arith, h)

  is_running-down : (g : PyGateway notify) → g.thread ≡ some finished → is_running notify g ≡ false
  unfolding is_running
  is_running-down g h = ground (arith, h)

  stop-finished :
      (g : PyGateway notify)
      → g.thread ≡ some finished
      → (e : PyError) × ((stop notify g).1 ≡ err e)
  unfolding stop
  stop-finished g h = (
    gateway_error (lit "gateway background thread had already terminated (likely a panic)"),
    ground (arith, h),
  )

  -- A stop of a gateway that is not running answers with success and keeps its signal: when a start
  -- after it succeeds, the server that it leaves running ends by itself at its first look at the
  -- signal, with no further call of stop, and the next stop answers with an error.
  pub stop-start-Ends :
      (host : ServerHost) (g g' : PyGateway notify)
      → g.thread ≡ none
      → start notify host (stop notify g).0 ≡ (g', ok tt)
      → ((stop notify g).1 ≡ ok tt)
        × (is_running notify g' ≡ true)
        × (is_running notify (poll_shutdown notify g') ≡ false)
        × ((e : PyError) × ((stop notify (poll_shutdown notify g')).1 ≡ err e))
  stop-start-Ends host g g' idle h =
      let signalled : PyGateway notify = record g { shutdown = notify.notify_one g.shutdown } in
      let is_stopped = stop-idle g idle in
      let (up, kept) =
        start-ok host signalled g' idle (sym (ap (λ p. start notify host p.0) is_stopped) ∙ h) in
      let ends =
        poll_shutdown-signalled g' (laws.served g.shutdown) up
          (ap notify.notified kept ∙ laws.keeps_permit g.shutdown) in
      let down = ap (λ p. p.thread) ends in
      (
        ap (λ p. p.1) is_stopped,
        is_running-up g' up,
        is_running-down (poll_shutdown notify g') down,
        stop-finished (poll_shutdown notify g') down,
      )

empty-false : (s : Bytes) → s ≢ [] → (s =? []) ≡ false
unfolding ◌=?◌
empty-false [] h = absurd (h refl)
empty-false (c ∷ s) h = refl

-- The caches of a servable configuration switched on with no room for a listing.
switched_on-Invalid :
    (check : Bytes → Bool) (config : Config)
    → IsServable check config
    → 0 < config.cache.listing_ttl_ms
    → config.cache.listing_capacity_entries ≡ 0
    → validate check (set_cache_enabled config true) ≡ err (invalid zero_listing_capacity)
unfolding validate set_cache_enabled
switched_on-Invalid check config servable ttl room =
    let uri = empty-false config.namenode_uri servable.has_namenode in
    let root = empty-false config.hdfs_root servable.has_root in
    let bucket = empty-false config.bucket_name servable.has_bucket in
    let permits = servable.has_permits in ground (arith, uri, root, bucket, permits, ttl, room)

module _ (notify : NotifyApi) where
  -- The constructor's `cache_enabled` is applied after the configuration was checked: where the loaded
  -- configuration has a listing time to live and no room for listings, `cache_enabled` gives a gateway
  -- and no error, with a configuration that `validate` rejects.
  pub py_new-Unchecked :
      (host : Host) (args : CliArgs) (config : Config) (log_level log_to : Option Bytes)
      → load host (record args { no_cache = false; cache = false }) ≡ ok config
      → 0 < config.cache.listing_ttl_ms
      → config.cache.listing_capacity_entries ≡ 0
      → (g : PyGateway notify) × (py_new notify host args (some true) log_level log_to ≡ ok g)
        × (validate host.check_bucket_name g.config ≡ err (invalid zero_listing_capacity))
  unfolding py_new set_cache_enabled
  py_new-Unchecked host args config log_level log_to loaded ttl room =
      let servable =
        (load-IsLoaded host (record args { no_cache = false; cache = false }) config
          loaded).is_servable in
      let g : PyGateway notify = record {
        config = set_cache_enabled config true;
        shutdown = notify.create;
        thread = none;
        address = none;
        log_level = log_level;
        log_target = unwrap_or log_to (lit "stderr");
      } in
      (
        g,
        ground (arith, loaded),
        switched_on-Invalid host.check_bucket_name config servable ttl room,
      )
