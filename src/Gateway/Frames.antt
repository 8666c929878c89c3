-- ===== src/Gateway/Frames.antt =====
-- What the loop of src/gateway/connection.rs keeps while it goes on.
use diddycord.Base.{ℕ, ◌≡◌, true, List, [], ◌∷◌, Option, none, some, is_some}
use diddycord.Gateway.Recovery.{SessionState}
use diddycord.Gateway.Connection.{Connection, Frame, Turn, continue, exit, error, text}

-- What holds of the state if the loop goes on.
abbrev pub OnContinue : (Connection → Type 0) → Turn → Type 0
OnContinue P (continue c) = P c
OnContinue P (exit c result) = Unit {0}
OnContinue P (error c) = Unit {0}

-- The number that a frame brings, or the one before.
abbrev pub newest : Option ℕ → Option ℕ → Option ℕ
newest none before = before
newest (some seq) before = some seq

abbrev pub seq_of : Frame → Option ℕ → Option ℕ
seq_of (text envelope) seq = newest envelope.seq seq
seq_of _ seq = seq

-- The sequence number of the last text frame that has one, or the one before.
unfoldable pub last_seq : List (ℕ × Frame) → Option ℕ → Option ℕ
last_seq [] seq = seq
last_seq ((now, frame) ∷ frames) seq = last_seq frames (seq_of frame seq)

-- The session keeps its sequence number, and what it has for a RESUME.
abbrev Keeps : SessionState → Connection → Type 0
Keeps s d =
    (d.session.seq ≡ s.seq)
    × (is_some s.session_id ≡ true → is_some d.session.session_id ≡ true)
    × (is_some s.resume_gateway_url ≡ true → is_some d.session.resume_gateway_url ≡ true)

-- After a frame: the sequence number of the frame, and still what a RESUME needs.
abbrev After : Frame → Connection → Connection → Type 0
After frame c d =
    (d.session.seq ≡ seq_of frame c.session.seq)
    × (is_some c.session.session_id ≡ true → is_some d.session.session_id ≡ true)
    × (is_some c.session.resume_gateway_url ≡ true → is_some d.session.resume_gateway_url ≡ true)
