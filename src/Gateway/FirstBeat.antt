-- ===== src/Gateway/FirstBeat.antt =====
-- When src/gateway/connection.rs sends its first heartbeat.
use diddycord.Base.{ℕ, ◌*◌, ◌≤◌, ◌<◌, List, [], ◌∷◌, none, some, arith, inl, inr, min, ◌%◌, u64_max}
use diddycord.Gateway.Recovery.{heartbeat_jitter}
use diddycord.Gateway.Protocol.{Incoming, text, silent, close, broken, ended}
use diddycord.Gateway.Hello.{Brings}

mul_mono : (m e k : ℕ) → e ≤ k → m * e ≤ m * k
mul_mono m e k h = grind arith

-- The first heartbeat is sent before a whole interval has passed.
pub jitter-lt :
    (entropy interval : ℕ)
    → 1000 ≤ interval
    → interval ≤ 300000
    → heartbeat_jitter entropy (interval * 1000) < interval * 1000
unfolding heartbeat_jitter
jitter-lt entropy interval low high =
    let m = min (interval * 1000) u64_max in
    omega (arith, mul_mono m (entropy % 1000000) 999999 (omega arith))

-- HELLO brings an interval from a second to five minutes.
pub Brings-range :
    (interval : ℕ) (frames : List (ℕ × Incoming))
    → Brings interval frames
    → (1000 ≤ interval) × (interval ≤ 300000)
Brings-range interval [] h = elim h [ ]
Brings-range interval ((at, text (some envelope)) ∷ frames) (inl h) = (h.3, h.4)
Brings-range interval ((at, text none) ∷ frames) (inl h) = elim h [ ]
Brings-range interval ((at, silent) ∷ frames) (inl h) = elim h [ ]
Brings-range interval ((at, close) ∷ frames) (inl h) = elim h [ ]
Brings-range interval ((at, broken) ∷ frames) (inl h) = elim h [ ]
Brings-range interval ((at, ended) ∷ frames) (inl h) = elim h [ ]
Brings-range interval (frame ∷ frames) (inr (_, h)) = Brings-range interval frames h
