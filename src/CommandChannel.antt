-- ===== src/CommandChannel.antt =====
-- crapssim_control/external/command_channel.py: the queue that external commands pass through, with
-- a rate limiter and a circuit breaker for each source. Times are numbers of clock ticks, and
-- `time.time()` is an argument.
pub mod RateLimiter
pub mod CircuitBreaker
pub mod Queue
mod Tests
