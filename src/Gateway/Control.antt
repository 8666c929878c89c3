-- ===== src/Gateway/Control.antt =====
-- src/gateway/mod.rs: `NetworkBackbone`, `NetworkControl` and the values that they share. A control
-- and its backbone hold the ends of the same watch channels, each with its latest value alone, so
-- one record stands for what both see, and a subscription is a view of it.
use diddycord.Base.{ℕ, max, Bool, true, false, Option, none, some, Str}
use diddycord.Gateway.Connection.{CurrentUser, NetworkStatus}

-- `(1 << 0) | (1 << 9) | (1 << 12) | (1 << 15)`.
abbrev pub default_intents : ℕ
default_intents = 37377

pub record GatewayConfig : Type 0 where
  pub token : Str
  pub intents : ℕ

-- The latest values of the watch channels.
pub record NetworkControl : Type 0 where
  pub stopping : Bool
  pub current_status : NetworkStatus
  pub user : Option CurrentUser
  pub round_trip : Option ℕ

pub record NetworkBackbone : Type 0 where
  pub config : GatewayConfig
  pub frontend_capacity : ℕ
  pub watches : NetworkControl

unfoldable pub new : GatewayConfig → ℕ → NetworkBackbone
new config frontend_capacity = record {
  config = config;
  frontend_capacity = max frontend_capacity 8;
  watches = record {
    stopping = false;
    current_status = NetworkStatus.idle;
    user = none;
    round_trip = none;
  };
}

abbrev pub control : NetworkBackbone → NetworkControl
control b = b.watches

unfoldable pub shutdown : NetworkControl → NetworkControl
shutdown c = record c { stopping = true }

abbrev pub status : NetworkControl → NetworkStatus
status c = c.current_status

abbrev pub self_user : NetworkControl → Option CurrentUser
self_user c = c.user

abbrev pub latency : NetworkControl → Option ℕ
latency c = c.round_trip

unfoldable pub set_status : NetworkStatus → NetworkControl → NetworkControl
set_status status c = record c { current_status = status }

unfoldable pub set_self_user : CurrentUser → NetworkControl → NetworkControl
set_self_user user c = record c { user = some user }

unfoldable pub set_latency : Option ℕ → NetworkControl → NetworkControl
set_latency latency c = record c { round_trip = latency }

-- What the network task publishes while a client looks on.
pub data Publication : Type 0 where
  of_status : NetworkStatus → Publication
  of_user : CurrentUser → Publication
  of_latency : Option ℕ → Publication

unfoldable pub publish : Publication → NetworkControl → NetworkControl
unfolding set_status set_self_user set_latency
publish (of_status status) c = set_status status c
publish (of_user user) c = set_self_user user c
publish (of_latency latency) c = set_latency latency c
