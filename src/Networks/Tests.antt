-- ===== src/Networks/Tests.antt =====
-- A network of server/models/network.ts whose host has a policy, and a channel for it.
use thelounge.Common.{◌≡◌, refl, true, false, none, [], ◌∷◌, ◌++◌, take, drop}
use thelounge.Models.Chan.{Chan, ChanType, ChanState, new_chan}
use thelounge.FeWebAdapter.Network.{Runtime, add_channel_sorted}
use thelounge.Networks.State.{Network, Config, with_lobby, add_channel, set_nick}
use thelounge.Networks.Validate.{
  validate, cleaned, clean_nick, clean_string, is_bad_in_nick, is_break, is_not_word, with_policy,
}
use thelounge.Networks.Secure.{IsClean, IsSecure, tls_asked, validate-IsSecure}
use thelounge.Networks.Channels.{locale_of, add_channel-sorted}
use thelounge.Sts.{Policies, get_policy}
use thelounge.Common.Texts.{first_chars, remove_chars, replace_chars}
use thelounge.Common.Dict.{get}
use thelounge.Message.Style.Clean.{is_space}

abbrev runtime : Runtime
runtime = record {
  lower = λ s. s;
  compare_le = λ a b. true;
  base_le = λ a b. true;
  parse_nicklist = λ s. none;
}

abbrev config : Config
config = record {
  lock_network = false;
  public_mode = false;
  default_nick = "guest";
  default_name = "";
  default_host = "";
  default_port = 6667;
  default_tls = false;
  default_reject_unauthorized = false;
}

abbrev network : Network
unfolding with_lobby
network = record {
  uuid = "u";
  nick = "a b";
  name = "net";
  host = "irc.net";
  port = 6667;
  tls = false;
  reject_unauthorized = false;
  password = "";
  username = "";
  realname = "";
  leave_message = "";
  sasl = "";
  sasl_account = "";
  sasl_password = "";
  proxy_host = "";
  proxy_port = 1080;
  proxy_username = "";
  proxy_password = "";
  proxy_enabled = false;
  channels = with_lobby [] "net";
  keep_nick = none;
  irc_nick = none;
}

abbrev policies : Policies
policies = ("irc.net", record { port = 6697; duration = 60; expires = 900 }) ∷ []

validate-IsSecure_example :
    IsClean (validate (locale_of runtime) config 5 policies network).0
    × IsSecure 5 policies
        (tls_asked config network)
        (validate (locale_of runtime) config 5 policies network).0
unfolding validate cleaned clean_nick clean_string set_nick get_policy first_chars remove_chars
    replace_chars get is_bad_in_nick is_break is_space is_not_word with_policy network
validate-IsSecure_example = validate-IsSecure (locale_of runtime) config 5 policies network refl

-- The policy's port is taken.
port_of_policy : (validate (locale_of runtime) config 5 policies network).0.port ≡ 6697
unfolding validate cleaned clean_nick clean_string set_nick get_policy first_chars remove_chars
    replace_chars get is_bad_in_nick is_break is_space is_not_word with_policy network
port_of_policy = refl

abbrev new : Chan
new = new_chan 4 "#c" ChanType.channel ChanState.joined

add_channel-sorted_example :
    ((add_channel (locale_of runtime) new network.channels).0
      ≡ add_channel_sorted runtime new network.channels)
    × (take (add_channel (locale_of runtime) new network.channels).1 network.channels
          ++ new ∷ drop (add_channel (locale_of runtime) new network.channels).1 network.channels
        ≡ add_channel_sorted runtime new network.channels)
add_channel-sorted_example = add_channel-sorted runtime new network.channels
