-- ===== src/Estimate.antt =====
-- `CostEstimator::Impl::estimate` of libbsv_cost_estimator/src/cost_estimator.cpp, with the structures
-- of libbsv_cost_estimator/include/bsv/cost_estimator.h that it fills in.
pub mod Machine
pub mod Execute
pub mod Loop
pub mod Sample
mod Tests
