-- ===== src/Gui/Rows.antt =====
-- src/gui_app.rs: the rows that the panels list, and the labels of the top bar.
use Prim.Native.Nat.{Ordering, compare}
use diddycord.Base.{
  ℕ, ◌/◌, ℤ, pos, negsuc, Bool, true, false, not, ◌||◌, ◌==◌, if◌then◌else◌, List, ◌∷◌, ◌++◌,
  Option, none, some, Str, bytes, map, retain, unwrap_or,
}
use diddycord.Base.Decimal.{print}
use diddycord.Base.Sort.{sort_by}
use diddycord.Base.Text.{str_cmp}
use diddycord.Events.{FrontendChannel, FrontendDirectChannel, FrontendThread}
use diddycord.Topology.Cache
use diddycord.Topology.Cache.{GuildRef}
use diddycord.Direct.Cache as Direct
use diddycord.Gateway.Connection.{NetworkStatus}
use diddycord.Gui.Session.{GuiSession}

pub record GuildRow : Type 0 where
  pub id : Str
  pub name : Str
  pub unavailable : Bool

unfoldable pub guild_rows : GuiSession → List GuildRow
unfolding Cache.guilds
guild_rows s =
    map (λ (g : GuildRef). record { id = g.id; name = g.name; unavailable = g.unavailable })
      (Cache.guilds s.state.topology)

unfoldable pub guild_text : GuildRow → Str
guild_text row = if row.unavailable then row.name ++ bytes " (offline)" else row.name

-- A direct channel or a thread, by its id and its name.
pub record NamedRow : Type 0 where
  pub id : Str
  pub name : Str

unfoldable pub direct_rows : GuiSession → List NamedRow
unfolding Direct.channels Direct.display_name
direct_rows s =
    map
      (λ (c : FrontendDirectChannel). record {
        id = c.id;
        name = unwrap_or (Direct.display_name c) (bytes "Unknown recipient");
      })
      (Direct.channels s.direct)

pub record ChannelRow : Type 0 where
  pub id : Str
  pub name : Str
  pub kind : ℕ
  pub position : ℤ

-- `Ord::cmp` on `i32`.
unfoldable pub int_cmp : ℤ → ℤ → Ordering
int_cmp (pos m) (pos n) = compare m n
int_cmp (pos m) (negsuc n) = Ordering.gt
int_cmp (negsuc m) (pos n) = Ordering.lt
int_cmp (negsuc m) (negsuc n) = compare n m

-- `cmp` by the positions, then by the names.
unfoldable pub row_cmp : ChannelRow → ChannelRow → Ordering
unfolding int_cmp str_cmp
row_cmp left right = elim (int_cmp left.position right.position) [
  | Ordering.lt ↦ Ordering.lt
  | Ordering.gt ↦ Ordering.gt
  | Ordering.eq ↦ str_cmp left.name right.name
]

-- The left row may stand before the right one.
unfoldable pub row_before : ChannelRow → ChannelRow → Bool
unfolding row_cmp
row_before left right = elim (row_cmp left right) [ Ordering.gt ↦ false | _ ↦ true ]

unfoldable pub channel_row : FrontendChannel → ChannelRow
channel_row c = record {
  id = c.id;
  name = unwrap_or c.name (bytes "unnamed");
  kind = c.kind;
  position = c.position;
}

unfoldable pub channel_rows : GuiSession → Str → List ChannelRow
unfolding sort_by row_before channel_row Cache.channels
channel_rows s guild_id =
    sort_by row_before (map channel_row (Cache.channels s.state.topology guild_id))

unfoldable pub thread_rows : GuiSession → Str → List NamedRow
unfolding retain Cache.threads
thread_rows s guild_id =
    map (λ (t : FrontendThread). record { id = t.id; name = unwrap_or t.name (bytes "thread") })
      (retain (λ (t : FrontendThread). not t.archived) (Cache.threads s.state.topology guild_id))

-- `matches!(kind, 0 | 5)`.
unfoldable pub text_capable : ChannelRow → Bool
text_capable row = row.kind == 0 || row.kind == 5

-- A middle dot or a number sign stands in front of the name.
unfoldable pub channel_text : ChannelRow → Str
unfolding text_capable
channel_text row =
    if text_capable row then bytes "# " ++ row.name else 0xc2 ∷ 0xb7 ∷ 0x20 ∷ row.name

unfoldable pub thread_text : NamedRow → Str
thread_text row = 0xe2 ∷ 0x86 ∷ 0xb3 ∷ 0x20 ∷ row.name

-- The latency is in microseconds.
unfoldable pub gateway_latency_label : Option ℕ → Option Str
unfolding print
gateway_latency_label none = none
gateway_latency_label (some latency) =
    some (bytes "Gateway " ++ print (latency / 1000) ++ bytes " ms")

unfoldable pub network_status_label : NetworkStatus → Str
unfolding print
network_status_label NetworkStatus.idle = bytes "Idle"
network_status_label (NetworkStatus.connecting resume) =
    if resume then bytes "Connecting (resume)" else bytes "Connecting"
network_status_label NetworkStatus.identifying = bytes "Authenticating"
network_status_label NetworkStatus.resuming = bytes "Resuming session"
network_status_label NetworkStatus.ready = bytes "Connected"
network_status_label (NetworkStatus.reconnecting attempt resume) =
    if resume
    then bytes "Reconnecting #" ++ print attempt ++ bytes " (resume)"
    else bytes "Reconnecting #" ++ print attempt
network_status_label NetworkStatus.stopped = bytes "Disconnected"
network_status_label (NetworkStatus.fatal code) =
    bytes "Disconnected (Gateway close " ++ print code ++ bytes ")"
