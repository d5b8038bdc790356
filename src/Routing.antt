-- ===== src/Routing.antt =====
-- gateway/routing: the metagraphs of the subnets, the quality scores of the miners, and the choice
-- of a miner for a request.
pub mod Float
pub mod Scorer
pub mod Metagraph
pub mod Selector
mod Tests
