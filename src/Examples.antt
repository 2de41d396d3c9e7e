-- ===== src/Examples.antt =====
-- The theorems at concrete decisions, signals and stores.
mod Samples
mod Worlds
mod OnGraph
mod OnPipeline
mod OnServices
mod OnKeepers
mod OnStorage
mod OnWorkers
mod OnSearch
