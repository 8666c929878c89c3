-- ===== src/Gateway/Payloads.antt =====
-- src/gateway/events.rs and src/gateway/bulk.rs: the payloads of dispatches as serde_json reads them,
-- and src/gateway/identity.rs.
use diddycord.Base.{
  ℕ, ℤ, Bool, not, ◌||◌, if◌then◌else◌, List, [], ◌∷◌, Option, none, some, Str, leb, length,
  push_back, unwrap_or,
}
use diddycord.Snowflake.{is_snowflake, is_empty}
use diddycord.Gateway.Connection.{CurrentUser}

pub record MessageCreateAuthor : Type 0 where
  pub username : Str

pub record MessageCreate : Type 0 where
  pub id : Str
  pub channel_id : Str
  pub content : Option Str
  pub author : Option MessageCreateAuthor

pub record MessageUpdateAuthor : Type 0 where
  pub username : Option Str

pub record MessageUpdate : Type 0 where
  pub id : Str
  pub channel_id : Str
  pub content : Option Str
  pub author : Option MessageUpdateAuthor

pub record MessageDelete : Type 0 where
  pub id : Str
  pub channel_id : Str

pub record GuildChannel : Type 0 where
  pub id : Str
  pub name : Option Str
  pub kind : ℕ
  pub position : ℤ
  pub parent_id : Option Str

pub record ThreadMetadata : Type 0 where
  pub archived : Bool
  pub locked : Bool

pub record GuildThread : Type 0 where
  pub id : Str
  pub parent_id : Option Str
  pub name : Option Str
  pub kind : ℕ
  pub thread_metadata : Option ThreadMetadata

pub record GuildCreate : Type 0 where
  pub id : Str
  pub name : Str
  pub unavailable : Bool
  pub channels : List GuildChannel
  pub threads : List GuildThread

pub record GuildUpdate : Type 0 where
  pub id : Str
  pub name : Option Str
  pub unavailable : Option Bool

pub record GuildDelete : Type 0 where
  pub id : Str
  pub unavailable : Bool

pub record ChannelChange : Type 0 where
  pub id : Str
  pub guild_id : Str
  pub name : Option Str
  pub kind : ℕ
  pub position : ℤ
  pub parent_id : Option Str

pub record ChannelDelete : Type 0 where
  pub id : Str
  pub guild_id : Str

pub record ThreadChange : Type 0 where
  pub id : Str
  pub guild_id : Str
  pub parent_id : Option Str
  pub name : Option Str
  pub kind : ℕ
  pub thread_metadata : Option ThreadMetadata

pub record ThreadDelete : Type 0 where
  pub id : Str
  pub guild_id : Str
  pub parent_id : Option Str

pub record ThreadListSync : Type 0 where
  pub guild_id : Str
  pub channel_ids : Option (List Str)
  pub threads : List ThreadChange

pub record BorrowedUser : Type 0 where
  pub id : Str
  pub username : Str
  pub global_name : Option Str
  pub discriminator : Option Str
  pub avatar : Option Str
  pub bot : Bool

unfoldable pub from_borrowed : BorrowedUser → Option CurrentUser
unfolding is_snowflake
from_borrowed user =
    if not (is_snowflake user.id) || is_empty user.username
    then none
    else some (record {
      id = user.id;
      username = user.username;
      global_name = user.global_name;
      discriminator = user.discriminator;
      avatar_hash = user.avatar;
      bot = user.bot;
    })

unfoldable pub display_name : CurrentUser → Str
display_name user = unwrap_or user.global_name user.username

-- The data of READY, as far as the identity goes.
pub record ReadyIdentity : Type 0 where
  pub user : BorrowedUser

-- What `serde_json` reads is the argument, `none` for an error.
unfoldable pub from_ready : Option ReadyIdentity → Option CurrentUser
unfolding from_borrowed
from_ready none = none
from_ready (some ready) = from_borrowed ready.user

unfoldable pub from_user_update : Option BorrowedUser → Option CurrentUser
unfolding from_borrowed
from_user_update none = none
from_user_update (some user) = from_borrowed user

abbrev pub max_bulk_delete_ids : ℕ
max_bulk_delete_ids = 100

-- The loop of `visit_seq`, over the ids of the array and those collected so far; `none` is the error.
unfoldable pub visit_seq : List Str → List Str → Option (List Str)
visit_seq ids [] = some ids
visit_seq ids (id ∷ sequence) =
    let rest = visit_seq (push_back ids id) sequence in
    if leb max_bulk_delete_ids (length ids) then none else rest

unfoldable pub deserialize_bulk_ids : List Str → Option (List Str)
unfolding visit_seq
deserialize_bulk_ids = visit_seq []

-- The payload before its array is visited.
pub record MessageBulkDelete : Type 0 where
  pub ids : List Str
  pub channel_id : Str
