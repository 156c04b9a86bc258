-- ===== src/Tests.antt =====
-- Runs of the definitions, and each theorem with hypotheses applied at a concrete input.
mod PathTests
pub mod ListLru
mod CacheTests
mod ListingTests
mod MetadataTests
pub mod BackpressureTests
mod MergeTests
mod ErrorTests
mod GatewayTests
mod FreshnessTests
mod PythonTests
mod ServerTests
mod ServeTests
mod SlashTests
