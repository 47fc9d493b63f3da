-- ===== src/FeWebAdapter/Tests.antt =====
-- Runs of the adapter of server/feWebClient/feWebAdapter.ts on a few messages of irssi.
use mathlib.Core.List.{Perm}
use thelounge.Common.{
  ℕ, ◌+◌, ◌≤◌, ◌≡◌, ◌≢◌, refl, String, false, none, some, List, [], ◌∷◌, map, length, codes, leb,
  leb→le, le→leb, arith, inl, inr, eq_iff,
}
use thelounge.Common.Dict.{get, set, delete}
use thelounge.Models.Chan.{Chan, ChanType, ChanState, new_chan}
use thelounge.Models.Prefix.{new_prefix}
use thelounge.Models.User.{User, new_user, mode}
use thelounge.FeWebAdapter.Network.{
  Runtime, NetworkData, add_channel_sorted, new_network, find_channel,
}
use thelounge.FeWebAdapter.Users.{user_le, rename_in_channel, sort_channel_users}
use thelounge.FeWebAdapter.Users.Maps.{IsKeyed, rename_in_channel_lem, sort_channel_users_lem}
use thelounge.FeWebAdapter.State.{
  FeWebAdapter, FeWebMessage, Extra, Moment, new_adapter, get_or_create_network,
}
use thelounge.FeWebAdapter.Notices.{handle_user_quit}
use thelounge.FeWebAdapter.Talk.{handle_channel_join, handle_message}
use thelounge.FeWebAdapter.Delivery.{handle_message_lem, found_in, id_of}
use thelounge.FeWebAdapter.Nicklist.{handle_nicklist}
use thelounge.FeWebAdapter.NickChange.{handle_nick_change}
use thelounge.Common.Sort.{sort}
use thelounge.FeWebAdapter.Lifecycle.{is_duplicate, emit_init, handle_state_dump}
use thelounge.FeWebAdapter.Dispatch.{
  ServerMessageType, Input, message_received, init_timer, receive, run,
}
use thelounge.FeWebAdapter.Quiet.{IsNumbered, inits}
use thelounge.FeWebAdapter.Quiet.Runs.{run-IsNumbered, run-inits-le, run-uuid}
use thelounge.FeWebAdapter.Order.{IsOrdered, IsPreorder, add_channel_sorted-IsOrdered}
use thelounge.FeWebAdapter.Renames.{handle_nick_change_lem}
use thelounge.FeWebAdapter.Tells.{told, handle_user_quit_lem, state_dump-again, without_nick}
use thelounge.FeWebAdapter.Comparator.{user_le_lem}

abbrev size : String → ℕ
size s = length (codes s)

-- Texts without capitals; a locale that compares them by length.
abbrev runtime : Runtime
runtime = record {
  lower = λ s. s;
  compare_le = λ a b. leb (size a) (size b);
  base_le = λ a b. leb (size a) (size b);
  parse_nicklist = λ s. some (("alice", "@") ∷ ("bob", "") ∷ []);
}

abbrev no_extra : Extra
no_extra = record {
  hostname = "";
  kicker = "";
  mode = "";
  params = [];
  new_nick = "";
  user = "";
  host = "";
  realname = "";
  channels = "";
  server = "";
  account = "";
  list_type = "";
  entries = "";
}

abbrev about : String → String → String → FeWebMessage
about channel nick text = record {
  timestamp = 0;
  server = "net";
  server_tag = "";
  channel = channel;
  target = "";
  nick = nick;
  text = text;
  level = 0;
  is_own = false;
  is_highlight = false;
  task = "";
  extra = no_extra;
}

abbrev at : ℕ → Moment
at now = record { now = now; fresh_uuid = "uuid" }

abbrev inputs : List Input
inputs =
    message_received (at 1000) ServerMessageType.state_dump (about "" "" "")
    ∷ message_received (at 1001) ServerMessageType.channel_join (about "#a" "me" "")
    ∷ message_received (at 1002) ServerMessageType.nicklist (about "#a" "" "[]")
    ∷ init_timer
    ∷ message_received (at 1003) ServerMessageType.nick_change (about "" "bob" "rob")
    ∷ message_received (at 1004) ServerMessageType.user_quit (about "" "rob" "bye")
    ∷ init_timer
    ∷ []

abbrev start : FeWebAdapter
start = new_adapter (("net", "old-uuid") ∷ [])

announced_once : inits (run runtime inputs start).1 ≡ 1
unfolding run emit_init handle_user_quit get_or_create_network get handle_nick_change set
    handle_nicklist find_channel handle_channel_join handle_state_dump new_network sort mode
    new_user new_prefix delete
announced_once = refl

two_messages : (run runtime inputs start).0.message_id_counter ≡ 3
unfolding run emit_init handle_user_quit get_or_create_network get handle_nick_change set
    handle_nicklist find_channel handle_channel_join handle_state_dump new_network sort mode
    new_user new_prefix delete
two_messages = refl

run-IsNumbered_example :
    IsNumbered 1 (run runtime inputs start).1 (run runtime inputs start).0.message_id_counter
run-IsNumbered_example = run-IsNumbered runtime inputs start

run-inits-le_example : inits (run runtime inputs start).1 + 0 ≤ 1
run-inits-le_example = run-inits-le runtime inputs start

run-uuid_example : get "net" (run runtime inputs start).0.network_uuids ≡ some "old-uuid"
unfolding get
run-uuid_example = run-uuid runtime inputs start "net" "old-uuid" given refl
  where
    given : ◌≢◌ {A = String} "old-uuid" ""
    given = ground (arith, eq_iff "old-uuid" "")

abbrev network : NetworkData
unfolding new_network
network = record (new_network "uuid" "net" 1) {
  channels =
      new_chan 1 "net" ChanType.lobby ChanState.joined
      ∷ record (new_chan 2 "#b" ChanType.channel ChanState.joined) {
        users = ("bob", new_user "bob" [] (new_prefix [])) ∷ [];
      }
      ∷ new_chan 3 "bob" ChanType.query ChanState.joined
      ∷ [];
}

by_length : IsPreorder runtime.base_le
by_length = (
  λ a b h. le→leb (size b) (size a) (ground (arith, h)),
  λ a b c h k.
      le→leb (size a) (size c)
        (omega (arith, leb→le (size a) (size b) h, leb→le (size b) (size c) k)),
)

abbrev new : Chan
new = new_chan 4 "#cc" ChanType.channel ChanState.joined

add_channel_sorted-IsOrdered_example :
    IsOrdered runtime (add_channel_sorted runtime new network.channels)
    × Perm (add_channel_sorted runtime new network.channels) (new ∷ network.channels)
unfolding network
add_channel_sorted-IsOrdered_example =
    add_channel_sorted-IsOrdered runtime by_length new network.channels refl
      (refl, (refl, (refl, tt)), ((refl, tt), (tt, tt)))

handle_user_quit_lem_example :
    (told (handle_user_quit runtime (at 5) (about "" "bob" "bye") start network).1 ≡ 2 ∷ [])
    × (get "net"
          (handle_user_quit runtime
            (at 5)
            (about "" "bob" "bye")
            start
            network).0.server_tag_to_network
        ≡ some (record network { channels = map (without_nick runtime "bob") network.channels }))
unfolding get network
handle_user_quit_lem_example =
    handle_user_quit_lem runtime (at 5) (about "" "bob" "bye") start network

abbrev dumped_once : FeWebAdapter
dumped_once = (receive runtime (at 1000) ServerMessageType.state_dump (about "" "" "") start).0

state_dump-again_example :
    receive runtime (at 1500) ServerMessageType.state_dump (about "" "" "") dumped_once
    ≡ (dumped_once, [])
unfolding get is_duplicate
state_dump-again_example =
    state_dump-again runtime (at 1000) (at 1500) (about "" "" "") start filed positive (omega arith)
      refl
  where
    filed : (n : NetworkData) → none ≡ some n → n.server_tag ≡ "net"
    filed n absent = ground (arith, absent)

    positive : ◌≢◌ {A = ℕ} 1000 0
    positive = ground arith

abbrev op : User
op = record (new_user "zoe" [] (new_prefix [])) { modes = some "@" ∷ [] }

abbrev voiced : User
voiced = record (new_user "al" [] (new_prefix [])) { modes = some "+" ∷ [] }

-- The operator does not come first.
user_le_lem_example : user_le runtime op voiced ≡ false
unfolding mode new_user
user_le_lem_example =
    user_le_lem runtime op voiced (inr (inr (inl refl))) (inr (inr (inr (inr refl))))

abbrev joined : Chan
joined = record new { users = ("zoe", op) ∷ ("al", voiced) ∷ [] }

sort_channel_users_lem_example :
    (get "zoe" (sort_channel_users runtime joined).users ≡ some op)
    × IsKeyed runtime (sort_channel_users runtime joined).users
unfolding get new_user
sort_channel_users_lem_example =
    sort_channel_users_lem runtime "zoe" joined (refl, refl, (refl, refl, tt))

rename_in_channel_lem_example :
    (get "eva" (rename_in_channel runtime "zoe" "eva" joined).users
      ≡ some (record op { nick = "eva" }))
    × IsKeyed runtime (rename_in_channel runtime "zoe" "eva" joined).users
unfolding get new_user
rename_in_channel_lem_example =
    rename_in_channel_lem runtime "zoe" "eva" "eva" op joined (refl, refl, (refl, refl, tt)) refl

abbrev whisper : FeWebMessage
whisper = record (about "eva" "eva" "hi") { level = 2 }

abbrev running : FeWebAdapter
running = record start { server_tag_to_network = ("net", network) ∷ []; channel_id_counter = 9 }

handle_message_lem_example :
    told (handle_message runtime (at 5) whisper running network).1
    ≡ id_of (found_in runtime "net" "eva" (handle_message runtime (at 5) whisper running network).0)
unfolding get network find_channel
handle_message_lem_example = handle_message_lem runtime (at 5) whisper running network refl

-- A query is opened for it, with the next id.
whispered : told (handle_message runtime (at 5) whisper running network).1 ≡ 9 ∷ []
unfolding handle_message find_channel network
whispered = refl

-- The level that the documents of the protocol have for a private message opens none.
level_eight :
    handle_message runtime (at 5) (record whisper { level = 8 }) running network ≡ (running, [])
unfolding handle_message find_channel network
level_eight = refl

handle_nick_change_lem_example :
    (told (handle_nick_change runtime (at 5) (about "" "bob" "rob") start network).1 ≡ 2 ∷ [])
    × (get "net"
          (handle_nick_change runtime
            (at 5)
            (about "" "bob" "rob")
            start
            network).0.server_tag_to_network
        ≡ some (record network {
          nick = "";
          channels = map (rename_in_channel runtime "bob" "rob") network.channels;
        }))
unfolding get network
handle_nick_change_lem_example =
    handle_nick_change_lem runtime (at 5) (about "" "bob" "rob") start network
