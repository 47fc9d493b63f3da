-- ===== src/FeWebAdapter/Network.antt =====
-- server/feWebClient/feWebAdapter.ts: the network data, and finding, making and placing channels.
use thelounge.Common.{
  ℕ, String, Bool, true, false, not, ◌&&◌, ◌||◌, Option, List, [], ◌∷◌, ◌++◌, find?, ◌==◌, str_eq,
  if◌then◌else◌, codes,
}
use thelounge.Models.Chan.{Chan, ChanType, ChanState, new_chan, is_channel, is_query}
use thelounge.Models.Prefix.{Prefix, new_prefix}

-- What the code takes of the language's texts: `toLowerCase`, whether `a.localeCompare(b)` is at most
-- 0, the same with `sensitivity: "base"`, and `JSON.parse` of a nicklist, none where it throws. A
-- nicklist is a list of nicks with their prefixes.
pub record Runtime : Type 0 where
  pub lower : String → String
  pub compare_le : String → String → Bool
  pub base_le : String → String → Bool
  pub parse_nicklist : String → Option (List (String × String))

pub record ServerOptions : Type 0 where
  pub chantypes : List String
  pub prefix : Prefix
  pub network : String

pub record NetworkData : Type 0 where
  pub uuid : String
  pub name : String
  pub nick : String
  pub server_tag : String
  pub channels : List Chan
  pub connected : Bool
  pub server_options : ServerOptions

abbrev pub default_prefix : Prefix
default_prefix = new_prefix (
    record { symbol = "!"; mode = "Y" }
    ∷ record { symbol = "@"; mode = "o" }
    ∷ record { symbol = "%"; mode = "h" }
    ∷ record { symbol = "+"; mode = "v" }
    ∷ [])

-- The network that `getOrCreateNetwork` makes, with its lobby.
unfoldable pub new_network : String → String → ℕ → NetworkData
new_network uuid server_tag lobby_id = record {
  uuid = uuid;
  name = server_tag;
  nick = "";
  server_tag = server_tag;
  channels = new_chan lobby_id server_tag ChanType.lobby ChanState.joined ∷ [];
  connected = false;
  server_options = record {
    chantypes = "#" ∷ "&" ∷ "!" ∷ [];
    prefix = default_prefix;
    network = server_tag;
  };
}

-- The type of a channel that the user joined, by the first character of its name.
type_of : List ℕ → ChanType
type_of [] = ChanType.query
type_of (c ∷ _) = if c == 35 then ChanType.channel else ChanType.query

-- Whether the loop of `addChannelSorted` stops before `compare_chan`.
unfoldable pub stops_before : Runtime → Chan → Chan → Bool
stops_before runtime new_chan compare_chan =
    if not (is_channel compare_chan.type || is_query compare_chan.type)
    then true
    else if is_channel new_chan.type && is_query compare_chan.type
    then true
    else if is_query new_chan.type && is_channel compare_chan.type
    then false
    else runtime.base_le new_chan.name compare_chan.name

-- The loop of `addChannelSorted` from the second channel on, and its `splice`.
unfoldable pub insert_channel : Runtime → Chan → List Chan → List Chan
unfolding stops_before
insert_channel runtime new_chan [] = new_chan ∷ []
insert_channel runtime new_chan (c ∷ cs) =
    let later = c ∷ insert_channel runtime new_chan cs in
    if stops_before runtime new_chan c then new_chan ∷ c ∷ cs else later

unfoldable pub add_channel_sorted : Runtime → Chan → List Chan → List Chan
unfolding insert_channel
add_channel_sorted runtime new_chan [] = new_chan ∷ []
add_channel_sorted runtime new_chan (first ∷ cs) =
    if is_channel new_chan.type || is_query new_chan.type
    then first ∷ insert_channel runtime new_chan cs
    else first ∷ cs ++ new_chan ∷ []

unfoldable pub is_named : Runtime → String → Chan → Bool
is_named runtime name c = str_eq (runtime.lower c.name) (runtime.lower name)

unfoldable pub find_channel : Runtime → String → List Chan → Option Chan
unfolding is_named
find_channel runtime name channels = find? (is_named runtime name) channels

-- A change of the object that `findChannel` gave: the first channel of that name.
unfoldable pub change_first {ℓ} : {A : Type ℓ} → (A → Bool) → (A → A) → List A → List A
change_first p f [] = []
change_first p f (x ∷ xs) = let rest = x ∷ change_first p f xs in if p x then f x ∷ xs else rest

unfoldable pub change_channel : Runtime → String → (Chan → Chan) → NetworkData → NetworkData
unfolding change_first is_named
change_channel runtime name f network = record network {
  channels = change_first (is_named runtime name) f network.channels;
}

-- `new Chan` and the id of `createChannel` and `createQueryChannel`.
unfoldable pub joined_channel : String → ℕ → Chan
unfolding type_of
joined_channel name id = new_chan id name (type_of (codes name)) ChanState.joined

unfoldable pub query_channel : String → ℕ → Chan
query_channel nick id = new_chan id nick ChanType.query ChanState.joined
