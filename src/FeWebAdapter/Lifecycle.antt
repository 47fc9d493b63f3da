-- ===== src/FeWebAdapter/Lifecycle.antt =====
-- server/feWebClient/feWebAdapter.ts: the state dump and the init after it, queries that open and
-- close, and the marks of what is read.
use thelounge.Common.{
  ℕ, ◌+◌, String, Bool, true, false, not, ◌&&◌, ◌||◌, Option, none, some, List, [], ◌∷◌, find?, ltb,
  ◌==◌, str_eq, if◌then◌else◌,
}
use thelounge.Common.Dict.{get, set, values}
use thelounge.Models.Chan.{Chan, is_lobby, is_query}
use thelounge.FeWebAdapter.Network.{Runtime, NetworkData, find_channel, query_channel, is_named}
use thelounge.FeWebAdapter.State.{
  FeWebAdapter, FeWebMessage, Moment, Event, on_network_update, on_channel_join, on_channel_part,
  on_init, on_mark_read, schedule_init, put_network, get_next_channel_id,
}
use thelounge.FeWebAdapter.Talk.{add_channel}

-- `alreadyReceived && now - alreadyReceived < 2000`, of the time of the last state dump.
unfoldable pub is_duplicate : ℕ → Option ℕ → Bool
is_duplicate now none = false
is_duplicate now (some received) = not (received == 0) && ltb now (received + 2000)

unfoldable pub only_lobby : Option Chan → List Chan
only_lobby none = []
only_lobby (some lobby) = lobby ∷ []

unfoldable pub handle_state_dump :
    Moment → FeWebMessage → FeWebAdapter → NetworkData → FeWebAdapter × List Event
unfolding is_duplicate only_lobby put_network
handle_state_dump moment msg this network =
    let marked = record this {
      state_dump_received = set msg.server moment.now this.state_dump_received;
    } in
    let cleared = record network {
      channels = only_lobby (find? (λ c. is_lobby c.type) network.channels);
      connected = true;
    } in
    if is_duplicate moment.now (get msg.server this.state_dump_received)
    then (this, [])
    else (put_network cleared marked, on_network_update cleared ∷ schedule_init ∷ [])

-- What the timer of a state dump runs.
unfoldable pub emit_init : FeWebAdapter → FeWebAdapter × List Event
emit_init this =
    if this.init_emitted
    then (this, [])
    else (record this { init_emitted = true }, on_init (values this.server_tag_to_network) ∷ [])

opened_in :
    Runtime → FeWebMessage → FeWebAdapter → NetworkData → Option Chan → FeWebAdapter × List Event
unfolding get_next_channel_id query_channel add_channel
opened_in runtime msg this network (some channel) = (this, [])
opened_in runtime msg this network none =
    let (numbered, id) = get_next_channel_id this in
    let channel = query_channel msg.nick id in
    (add_channel runtime channel network numbered, on_channel_join network.uuid channel ∷ [])

unfoldable pub handle_query_opened :
    Runtime → FeWebMessage → FeWebAdapter → NetworkData → FeWebAdapter × List Event
unfolding opened_in
handle_query_opened runtime msg this network =
    opened_in runtime msg this network (find_channel runtime msg.nick network.channels)

-- `findIndex` and `splice(channelIndex, 1)`
unfoldable pub remove_first {ℓ} : {A : Type ℓ} → (A → Bool) → List A → List A
remove_first p [] = []
remove_first p (x ∷ xs) = let rest = x ∷ remove_first p xs in if p x then xs else rest

unfoldable pub is_query_named : Runtime → String → Chan → Bool
unfolding is_named
is_query_named runtime nick c = is_query c.type && is_named runtime nick c

closed_in :
    Runtime → FeWebMessage → FeWebAdapter → NetworkData → Option Chan → FeWebAdapter × List Event
unfolding remove_first is_query_named put_network
closed_in runtime msg this network none = (this, [])
closed_in runtime msg this network (some channel) = (
  put_network
      (record network {
        channels = remove_first (is_query_named runtime msg.nick) network.channels;
      })
      this,
  on_channel_part network.uuid channel.id ∷ [],
)

unfoldable pub handle_query_closed :
    Runtime → FeWebMessage → FeWebAdapter → NetworkData → FeWebAdapter × List Event
unfolding closed_in
handle_query_closed runtime msg this network =
    closed_in runtime msg this network (find? (is_query_named runtime msg.nick) network.channels)

marked_channel : NetworkData → Option Chan → List Event
marked_channel network none = []
marked_channel network (some channel) = on_mark_read network.uuid channel.name ∷ []

marked_network : Runtime → String → Option NetworkData → List Event
unfolding marked_channel
marked_network runtime name none = []
marked_network runtime name (some network) =
    marked_channel network (find_channel runtime name network.channels)

-- The one handler that makes no network.
unfoldable pub handle_mark_read : Runtime → FeWebMessage → FeWebAdapter → FeWebAdapter × List Event
unfolding marked_network
handle_mark_read runtime msg this =
    let tag = if str_eq msg.server "" then msg.server_tag else msg.server in
    let name = if str_eq msg.channel "" then msg.target else msg.channel in
    if str_eq tag "" || str_eq name ""
    then (this, [])
    else (this, marked_network runtime name (get tag this.server_tag_to_network))
