-- ===== src/Kernel.antt =====
-- The modules of kernel/.
pub mod ContextDepths
pub mod ClockManager
pub mod MonotonicTime
pub mod TimerQueues
