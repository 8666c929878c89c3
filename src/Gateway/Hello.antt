-- ===== src/Gateway/Hello.antt =====
-- What `receive_hello` of src/gateway/protocol.rs takes for HELLO.
use diddycord.Base.{
  ℕ, ◌≤◌, ◌≡◌, ◌≢◌, ◌↔◌, ap, inl, inr, ◌⊎◌, List, [], ◌∷◌, Option, none, some, arith, ◌==◌,
  Bool-cases,
}
use diddycord.Base.Results.{ok}
use diddycord.Gateway.Protocol.{
  Incoming, text, close, silent, broken, ended, hello_timeout, parse_hello, accept_hello,
  receive_hello,
}

-- What may come in before HELLO: pings, pongs and the like, and envelopes of other operations, in
-- time.
abbrev pub IsSkipped : ℕ × Incoming → Type 0
IsSkipped (at, silent) = at ≤ hello_timeout
IsSkipped (at, text (some envelope)) = (at ≤ hello_timeout) × (envelope.op ≢ 10)
IsSkipped (at, _) = ⊥

-- HELLO in time, with an interval from a second to five minutes.
abbrev pub IsHello : ℕ → ℕ × Incoming → Type 0
IsHello interval (at, text (some envelope)) =
    (at ≤ hello_timeout)
    × (envelope.op ≡ 10)
    × (envelope.d ≡ some (some interval))
    × (1000 ≤ interval)
    × (interval ≤ 300000)
IsHello interval _ = ⊥

-- HELLO behind frames that are skipped.
abbrev pub Brings : ℕ → List (ℕ × Incoming) → Type 0
Brings interval [] = ⊥
Brings interval (frame ∷ frames) =
    IsHello interval frame ⊎ (IsSkipped frame × Brings interval frames)

accept_hello_sound :
    (d : Option (Option ℕ)) (interval : ℕ)
    → accept_hello d ≡ ok interval
    → (d ≡ some (some interval)) × (1000 ≤ interval) × (interval ≤ 300000)
unfolding accept_hello parse_hello
accept_hello_sound none interval h = cc
accept_hello_sound (some none) interval h = cc
accept_hello_sound (some (some n)) interval h = ground (arith, h)

accept_hello_complete :
    (interval : ℕ)
    → 1000 ≤ interval
    → interval ≤ 300000
    → accept_hello (some (some interval)) ≡ ok interval
unfolding accept_hello parse_hello
accept_hello_complete interval low high = ground (arith, low, high)

receive_hello_sound :
    (frames : List (ℕ × Incoming)) (interval : ℕ)
    → receive_hello frames ≡ ok interval
    → Brings interval frames
unfolding receive_hello
receive_hello_sound [] interval h = cc
receive_hello_sound ((at, broken) ∷ frames) interval h = absurd (ground (arith, h))
receive_hello_sound ((at, ended) ∷ frames) interval h = absurd (ground (arith, h))
receive_hello_sound ((at, close) ∷ frames) interval h = absurd (ground (arith, h))
receive_hello_sound ((at, text none) ∷ frames) interval h = absurd (ground (arith, h))
receive_hello_sound ((at, silent) ∷ frames) interval h =
    inr (ground (arith, h), receive_hello_sound frames interval (ground (arith, h)))
receive_hello_sound ((at, text (some envelope)) ∷ frames) interval h =
    elim (Bool-cases (envelope.op == 10)) [
      | inl hello ↦ inl (ground (arith, h, hello, accept_hello_sound envelope.d interval))
      | inr other ↦
          inr (
            ground (arith, h, other),
            receive_hello_sound frames interval (ground (arith, h, other)),
          )
    ]

receive_hello_complete :
    (frames : List (ℕ × Incoming)) (interval : ℕ)
    → Brings interval frames
    → receive_hello frames ≡ ok interval
unfolding receive_hello
receive_hello_complete [] interval h = elim h [ ]
receive_hello_complete ((at, broken) ∷ frames) interval (inl h) = elim h [ ]
receive_hello_complete ((at, broken) ∷ frames) interval (inr h) = elim h.0 [ ]
receive_hello_complete ((at, ended) ∷ frames) interval (inl h) = elim h [ ]
receive_hello_complete ((at, ended) ∷ frames) interval (inr h) = elim h.0 [ ]
receive_hello_complete ((at, close) ∷ frames) interval (inl h) = elim h [ ]
receive_hello_complete ((at, close) ∷ frames) interval (inr h) = elim h.0 [ ]
receive_hello_complete ((at, text none) ∷ frames) interval (inl h) = elim h [ ]
receive_hello_complete ((at, text none) ∷ frames) interval (inr h) = elim h.0 [ ]
receive_hello_complete ((at, silent) ∷ frames) interval (inl h) = elim h [ ]
receive_hello_complete ((at, silent) ∷ frames) interval (inr (timely, h)) =
    ground (arith, timely, receive_hello_complete frames interval h)
receive_hello_complete ((at, text (some envelope)) ∷ frames) interval (inl h) =
    ground (arith, h, ap accept_hello h.2, accept_hello_complete interval h.3 h.4)
receive_hello_complete ((at, text (some envelope)) ∷ frames) interval (inr (skipped, h)) =
    ground (arith, skipped, receive_hello_complete frames interval h)

-- `receive_hello` ends with an interval exactly if HELLO brings this interval, from a second to five
-- minutes, within ten seconds, behind nothing but frames that are skipped.
pub receive_hello-Brings :
    (frames : List (ℕ × Incoming)) (interval : ℕ)
    → (receive_hello frames ≡ ok interval) ↔ Brings interval frames
receive_hello-Brings frames interval =
    (receive_hello_sound frames interval, receive_hello_complete frames interval)
