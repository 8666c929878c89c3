-- ===== src/Gateway/Delays.antt =====
-- How long src/gateway/recovery.rs waits.
use diddycord.Base.{ℕ, zero, suc, ◌+◌, ◌*◌, ◌^◌, ◌≤◌, ◌<◌, min, arith}
use diddycord.Gateway.Recovery.{AuthMode, reconnect_delay, delay_bounds}

pow_pos : (n : ℕ) → 1 ≤ 2 ^ n
pow_pos zero = omega arith
pow_pos (suc n) = omega (arith, pow_pos n)

-- The wait before a reconnection: at least the base and less than half a second above the cap, which
-- are 1 s and 30 s to resume, and 5 s, the least delay between two IDENTIFYs, and 120 s to identify.
pub reconnect_delay-bounds :
    (entropy attempt : ℕ) (auth : AuthMode)
    → ((delay_bounds auth).0 * 1000 ≤ reconnect_delay entropy attempt auth)
      × (reconnect_delay entropy attempt auth < (delay_bounds auth).1 * 1000 + 500)
unfolding reconnect_delay
reconnect_delay-bounds entropy attempt AuthMode.resume =
    let p = pow_pos (min attempt 7) in (omega (arith, p), omega arith)
reconnect_delay-bounds entropy attempt AuthMode.identify =
    let p = pow_pos (min attempt 7) in (omega (arith, p), omega arith)
