-- ===== src/Tests.antt =====
-- Tests, and concrete inputs at which the theorems apply.
mod Memory
mod Samples
mod OsmosisTokens
mod Coins
mod Names
mod Runs
mod CoreumSamples
mod CoreumTokens
mod Nfts
mod Deployments
mod AstroportPairs
mod Helping
mod Rpc
mod Pools
mod Supply
mod Routing
mod Counting
mod Batches
mod Builds
mod TokenSupply
