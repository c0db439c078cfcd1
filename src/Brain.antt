-- ===== src/Brain.antt =====
-- packages/brain: the reasoning loop, and the guard of its calls to the core.
pub mod CircuitBreaker
pub mod Breaking
pub mod AgenticLoop
pub mod LoopSteps
pub mod LoopBounds
mod Tests
