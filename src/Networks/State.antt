-- ===== src/Networks/State.antt =====
-- server/models/network.ts: the fields of `Network`, its lobby and its channels, `setNick`.
use thelounge.Common.{
  ℕ, ◌+◌, String, Bool, true, false, not, ◌&&◌, ◌||◌, Option, none, some, List, [], ◌∷◌, ◌++◌,
  length, take, drop, any, find?, ltb, str_eq, if◌then◌else◌,
}
use thelounge.Models.Chan.{Chan, ChanType, ChanState, new_chan, is_channel, is_query, is_special}

-- What the code takes of the language's texts: `toLowerCase`, and whether `a.localeCompare(b)` with
-- `sensitivity: "base"` is at most 0.
pub record Locale : Type 0 where
  pub lower : String → String
  pub base_le : String → String → Bool

-- The fields that the methods here read or write. `irc_nick` is the nick of the options of the IRC
-- client, none where there is no client.
pub record Network : Type 0 where
  pub uuid : String
  pub nick : String
  pub name : String
  pub host : String
  pub port : ℕ
  pub tls : Bool
  pub reject_unauthorized : Bool
  pub password : String
  pub username : String
  pub realname : String
  pub leave_message : String
  pub sasl : String
  pub sasl_account : String
  pub sasl_password : String
  pub proxy_host : String
  pub proxy_port : ℕ
  pub proxy_username : String
  pub proxy_password : String
  pub proxy_enabled : Bool
  pub channels : List Chan
  pub keep_nick : Option String
  pub irc_nick : Option String

-- What the methods read of `Config.values`.
pub record Config : Type 0 where
  pub lock_network : Bool
  pub public_mode : Bool
  pub default_nick : String
  pub default_name : String
  pub default_host : String
  pub default_port : ℕ
  pub default_tls : Bool
  pub default_reject_unauthorized : Bool

keeps : Option String → String → Bool
keeps none nick = false
keeps (some kept) nick = str_eq kept nick

-- `setNick`, less the expression that finds the nick in messages.
unfoldable pub set_nick : String → Network → Network
unfolding keeps
set_nick nick this = record this {
  nick = nick;
  keep_nick = if keeps this.keep_nick nick then none else this.keep_nick;
  irc_nick = elim this.irc_nick [ none ↦ none | some old ↦ some nick ];
}

-- `getLobby().name = name`
unfoldable pub rename_lobby : String → List Chan → List Chan
rename_lobby name [] = []
rename_lobby name (lobby ∷ cs) = record lobby { name = name } ∷ cs

-- `getChannel`: not the lobby, which is first.
unfoldable pub get_channel : Locale → String → Network → Option Chan
get_channel locale name this =
    find? (λ c. str_eq (locale.lower c.name) (locale.lower name)) (drop 1 this.channels)

-- The loop of `addChannel` from the index `i` on: whether it stops there, as its three breaks say.
unfoldable pub breaks_at : Locale → Chan → Chan → Bool
breaks_at locale new_chan compare_chan =
    if not (is_channel compare_chan.type) && not (is_query compare_chan.type)
    then true
    else if is_channel new_chan.type && is_query compare_chan.type
    then true
    else if is_query new_chan.type && is_channel compare_chan.type
    then false
    else locale.base_le new_chan.name compare_chan.name

unfoldable pub index_from : Locale → Chan → ℕ → List Chan → ℕ
index_from locale new_chan i [] = i
index_from locale new_chan i (c ∷ cs) =
    let later = index_from locale new_chan (i + 1) cs in
    if breaks_at locale new_chan c then i else later

unfoldable pub splice_in : ℕ → Chan → List Chan → List Chan
splice_in index new_chan channels = take index channels ++ new_chan ∷ drop index channels

unfoldable pub channel_index : Locale → Chan → List Chan → ℕ
channel_index locale new_chan [] = 0
channel_index locale new_chan (lobby ∷ cs) =
    if is_channel new_chan.type || is_query new_chan.type
    then index_from locale new_chan 1 cs
    else length cs + 1

-- The channels and the index.
unfoldable pub add_channel : Locale → Chan → List Chan → List Chan × ℕ
unfolding channel_index
add_channel locale new_chan channels =
    let index = channel_index locale new_chan channels in (splice_in index new_chan channels, index)

-- `new Chan({name, type: LOBBY, muted})` of the constructor, in front of the channels.
unfoldable pub with_lobby : List Chan → String → List Chan
with_lobby channels name =
    record (new_chan 0 name ChanType.lobby ChanState.parted) {
      muted =
          ltb 0 (length channels) && not (any (λ c. not (c.muted || is_special c.type)) channels);
    }
    ∷ channels
