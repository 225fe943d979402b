-- ===== src/Strategy.antt =====
-- Signals: how they are combined and arbitrated, and the bars and order flows that they come from
-- (strategy/).
pub mod Combiner
pub mod Arbitrate
pub mod Aggregator
pub mod OrderFlow
pub mod Breakout
pub mod Volume
pub mod TickMomentum
pub mod Imbalance
mod Examples
