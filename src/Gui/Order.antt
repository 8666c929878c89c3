-- ===== src/Gui/Order.antt =====
-- The order in which src/gui_app.rs lists the channels of a guild.
use Prim.Native.Nat.{Ordering}
use diddycord.Base.{ℤ, pos, negsuc, ◌≡◌, [], ◌∷◌, ◌<◌, ◌⊎◌, Str}
use diddycord.Topology.Cache
use diddycord.Gui.Rows.{ChannelRow}

-- A comparison that two values answer to, seen from the other one.
abbrev flipped : Ordering → Ordering
flipped Ordering.lt = Ordering.gt
flipped Ordering.eq = Ordering.eq
flipped Ordering.gt = Ordering.lt

-- How two comparisons in a row compose.
abbrev Composes : Ordering → Ordering → Ordering → Type 0
Composes Ordering.lt Ordering.lt r = r ≡ Ordering.lt
Composes Ordering.lt Ordering.eq r = r ≡ Ordering.lt
Composes Ordering.eq Ordering.lt r = r ≡ Ordering.lt
Composes Ordering.eq Ordering.eq r = r ≡ Ordering.eq
Composes _ _ r = Unit {0}

-- The order of integers, and of texts as in a dictionary.
abbrev pub IsLess : ℤ → ℤ → Type 0
IsLess (pos m) (pos n) = m < n
IsLess (pos m) (negsuc n) = ⊥
IsLess (negsuc m) (pos n) = Unit {0}
IsLess (negsuc m) (negsuc n) = n < m

abbrev pub IsUpTo : Str → Str → Type 0
IsUpTo [] t = Unit {0}
IsUpTo (x ∷ s) [] = ⊥
IsUpTo (x ∷ s) (y ∷ t) = (x < y) ⊎ ((x ≡ y) × IsUpTo s t)

-- A lesser position, or the same one and a name that is no later.
abbrev pub InOrder : ChannelRow → ChannelRow → Type 0
InOrder x y = IsLess x.position y.position ⊎ ((x.position ≡ y.position) × IsUpTo x.name y.name)

-- What a comparison says.
abbrev Says : Ordering → Type 0 → Type 0 → Type 0
Says Ordering.lt less equal = less
Says Ordering.eq less equal = equal
Says Ordering.gt less equal = Unit {0}
