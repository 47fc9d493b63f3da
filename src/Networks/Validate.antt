-- ===== src/Networks/Validate.antt =====
-- server/models/network.ts: `validate`.
use thelounge.Common.{
  ℕ, String, Bool, true, false, not, ◌&&◌, ◌||◌, Option, none, some, List, [], ◌∷◌, any, leb, ◌==◌,
  str_eq, if◌then◌else◌,
}
use thelounge.Common.Texts.{remove_chars, replace_chars, first_chars}
use thelounge.Message.Style.Clean.{is_space}
use thelounge.Networks.State.{Locale, Network, Config, set_nick, rename_lobby}
use thelounge.Sts.{Policy, Policies, get_policy}

-- The errors that go to the lobby.
pub data Problem : Type 0 where
  not_allowed : String → Problem
  no_host : Problem
  has_policy : String → ℕ → Problem

-- `[\x00\s:!@]`, `[\x00\r\n]` and `[^a-zA-Z0-9]`
unfoldable pub is_bad_in_nick : ℕ → Bool
is_bad_in_nick c = c == 0 || is_space c || c == 58 || c == 33 || c == 64

unfoldable pub is_break : ℕ → Bool
is_break c = c == 0 || c == 13 || c == 10

unfoldable pub is_not_word : ℕ → Bool
is_not_word c = not ((leb 97 c && leb c 122) || (leb 65 c && leb c 90) || (leb 48 c && leb c 57))

unfoldable pub clean_nick : String → String
clean_nick nick = first_chars 100 (replace_chars is_bad_in_nick "_" nick)

unfoldable pub clean_string : String → String
clean_string text = first_chars 300 (remove_chars is_break text)

unfoldable pub or_text : String → String → String
or_text a b = if str_eq a "" then b else a

or_port : ℕ → ℕ → ℕ
or_port a b = if a == 0 then b else a

-- The texts of the network: nick, user name and the rest.
unfoldable pub cleaned : Locale → Config → Network → Network
unfolding or_text or_port
cleaned locale config this =
    let named = set_nick (clean_nick (or_text this.nick config.default_nick)) this in
    record named {
      username =
          or_text (clean_string (or_text this.username (remove_chars is_not_word named.nick)))
            "thelounge";
      realname = or_text (clean_string this.realname) named.nick;
      leave_message = clean_string this.leave_message;
      password = clean_string this.password;
      host = locale.lower (clean_string this.host);
      name = clean_string this.name;
      sasl_account = clean_string this.sasl_account;
      sasl_password = clean_string this.sasl_password;
      proxy_host = clean_string this.proxy_host;
      proxy_port = or_port this.proxy_port 1080;
      proxy_username = clean_string this.proxy_username;
      proxy_password = clean_string this.proxy_password;
      port = or_port this.port (if this.tls then 6697 else 6667);
      sasl = if any (str_eq this.sasl) ("" ∷ "plain" ∷ "external" ∷ []) then this.sasl else "";
    }

unfoldable pub locked : Config → Network → Network
locked config this = record this {
  name = if config.public_mode then config.default_name else this.name;
  channels =
      if config.public_mode then rename_lobby config.default_name this.channels else this.channels;
  host = config.default_host;
  port = config.default_port;
  tls = config.default_tls;
  reject_unauthorized = config.default_reject_unauthorized;
}

unfoldable pub secured : Option Policy → Network → Network × List Problem
secured none this = (this, [])
secured (some policy) this = if this.tls then (this, []) else (
  record this { port = policy.port; tls = true; reject_unauthorized = true },
  has_policy this.host policy.port ∷ [],
)

-- The end of `validate`: a host is there, and its policy is kept.
unfoldable pub with_policy : ℕ → Policies → Network → Network × Policies × Bool × List Problem
unfolding secured
with_policy now policies this =
    let (left, refreshed, policy) = get_policy now this.host policies in
    let (safe, problems) = secured policy this in
    if str_eq this.host ""
    then (this, policies, false, no_host ∷ [])
    else (safe, left, true, problems)

-- The network, the policies, whether it is valid, and the errors.
unfoldable pub validate :
    Locale → Config → ℕ → Policies → Network → Network × Policies × Bool × List Problem
validate locale config now policies this =
    let clean = cleaned locale config this in
    if config.lock_network
    then (if not config.public_mode
          && not (str_eq clean.host "")
          && not (str_eq clean.host config.default_host)
        then (clean, policies, false, not_allowed clean.host ∷ [])
        else with_policy now policies (locked config clean))
    else with_policy now policies clean
