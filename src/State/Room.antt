-- ===== src/State/Room.antt =====
-- What a page of history adds to a timeline that has room for it, in src/state.rs.
use diddycord.Base.{suc, ◌≤◌, ◌≡◌, Bool, true, List, length, any}
use diddycord.Events.{FrontendEvent}

-- The timeline `after` a round has at most one event more, and what was found before is found.
abbrev Keeps : (FrontendEvent → Bool) → List FrontendEvent → List FrontendEvent → Type 0
Keeps q events after =
    (length after ≤ suc (length events)) × (any q events ≡ true → any q after ≡ true)
