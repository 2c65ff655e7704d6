-- ===== src/Tests.antt =====
-- The theorems at concrete inputs, and runs of the definitions.
pub mod BufferTests
pub mod LoopTests
pub mod ClientTests
pub mod RaftTests
pub mod RedisTests
pub mod ServerTests
pub mod StoreTests
pub mod StoredTests
pub mod TimerTests
