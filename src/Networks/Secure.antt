-- ===== src/Networks/Secure.antt =====
-- What a network that `validate` of server/models/network.ts accepts has.
use thelounge.Common.{
  ℕ, ◌≤◌, ◌≡◌, ◌≢◌, ◌⊎◌, refl, String, Bool, true, false, Option, none, some, List, arith,
  if◌then◌else◌, eq_iff, length, codes, Bool-cases, inl, str_eq, inr,
}
use thelounge.Networks.State.{Locale, Network, Config, set_nick}
use thelounge.Networks.Validate.{
  validate, cleaned, locked, with_policy, is_break, is_bad_in_nick, clean_string, clean_nick,
  secured, or_text, is_not_word, Problem,
}
use thelounge.Sts.{Policy, Policies, get_policy}
use thelounge.Common.Texts.{
  IsFree, first_chars-IsFree, remove_chars-IsFree, replace_chars-IsFree, IsFree-of_IsFree,
  length-first_chars, remove_chars,
}
use thelounge.Message.Style.Clean.{is_space}

-- A text of one line, without NUL.
abbrev pub IsLine : String → Type 0
IsLine s = IsFree is_break s

-- The texts that go to the IRC server as they are.
pub record IsClean (this : Network) : Type 0 where
  pub nick : IsFree is_bad_in_nick this.nick × (length (codes this.nick) ≤ 100)
  pub username : IsLine this.username
  pub realname : IsLine this.realname
  pub password : IsLine this.password
  pub leave_message : IsLine this.leave_message
  pub sasl_account : IsLine this.sasl_account
  pub sasl_password : IsLine this.sasl_password

-- A policy in force makes the connection secure, by its port where it was not secure before.
pub record IsSecure (now : ℕ) (policies : Policies) (tls_before : Bool) (this : Network)
    : Type 0 where
  pub host : this.host ≢ ""
  pub policy :
      (policy : Policy)
      → (get_policy now this.host policies).2 ≡ some policy
      → (this.tls ≡ true)
        × ((tls_before ≡ true) ⊎ ((this.port ≡ policy.port) × (this.reject_unauthorized ≡ true)))

clean_string-IsLine : (s : String) → IsLine (clean_string s)
unfolding clean_string
clean_string-IsLine s = first_chars-IsFree is_break 300 _ (remove_chars-IsFree is_break s)

clean_nick-IsFree : (s : String) → IsFree is_bad_in_nick (clean_nick s)
unfolding clean_nick is_bad_in_nick is_space
clean_nick-IsFree s =
    first_chars-IsFree is_bad_in_nick 100 _ (replace_chars-IsFree is_bad_in_nick "_" s refl)

clean_nick-le : (s : String) → length (codes (clean_nick s)) ≤ 100
unfolding clean_nick
clean_nick-le s = length-first_chars 100 _

bad_of_break : (c : ℕ) → is_bad_in_nick c ≡ false → is_break c ≡ false
unfolding is_bad_in_nick is_break is_space
bad_of_break c h = ground (arith, h)

nick-IsLine : (s : String) → IsFree is_bad_in_nick s → IsLine s
nick-IsLine s h = IsFree-of_IsFree is_bad_in_nick is_break bad_of_break s h

or_text-IsLine : (a b : String) → IsLine a → IsLine b → IsLine (or_text a b)
unfolding or_text
or_text-IsLine a b h k = elim (Bool-cases (str_eq a "")) [ inl e ↦ rw e k | inr e ↦ rw e h ]

cleaned-IsClean :
    (locale : Locale) (config : Config) (this : Network) → IsClean (cleaned locale config this)
unfolding cleaned set_nick is_break
cleaned-IsClean locale config this = record {
  nick = (clean_nick-IsFree (or_text this.nick config.default_nick), clean_nick-le _);
  username = or_text-IsLine (clean_string asked) "thelounge" (clean_string-IsLine asked) refl;
  realname =
      or_text-IsLine (clean_string this.realname) nick (clean_string-IsLine this.realname)
        (nick-IsLine nick (clean_nick-IsFree (or_text this.nick config.default_nick)));
  password = clean_string-IsLine this.password;
  leave_message = clean_string-IsLine this.leave_message;
  sasl_account = clean_string-IsLine this.sasl_account;
  sasl_password = clean_string-IsLine this.sasl_password;
}
  where
    nick : String
    nick = clean_nick (or_text this.nick config.default_nick)

    asked : String
    asked = or_text this.username (remove_chars is_not_word nick)

locked-IsClean : (config : Config) (this : Network) → IsClean this → IsClean (locked config this)
unfolding locked
locked-IsClean config this h = record {
  nick = h.nick;
  username = h.username;
  realname = h.realname;
  password = h.password;
  leave_message = h.leave_message;
  sasl_account = h.sasl_account;
  sasl_password = h.sasl_password;
}

secured-IsClean :
    (policy : Option Policy) (this : Network) → IsClean this → IsClean (secured policy this).0
unfolding secured
secured-IsClean none this h = h
secured-IsClean (some policy) this h = elim (Bool-cases this.tls) [
  | inl e ↦ simp e h
  | inr e ↦ simp e (record {
    nick = h.nick;
    username = h.username;
    realname = h.realname;
    password = h.password;
    leave_message = h.leave_message;
    sasl_account = h.sasl_account;
    sasl_password = h.sasl_password;
  })
]

secured-policy :
    (found : Option Policy) (this : Network) (policy : Policy)
    → found ≡ some policy
    → ((secured found this).0.tls ≡ true)
      × ((this.tls ≡ true)
          ⊎ (((secured found this).0.port ≡ policy.port)
              × ((secured found this).0.reject_unauthorized ≡ true)))
unfolding secured
secured-policy none this policy e = cc
secured-policy (some p) this policy e = (ground (arith, e), ground (arith, e))

secured-host : (found : Option Policy) (this : Network) → (secured found this).0.host ≡ this.host
unfolding secured
secured-host none this = refl
secured-host (some p) this = ground arith

with_policy-IsSecure :
    (now : ℕ) (policies : Policies) (this : Network)
    → (with_policy now policies this).2 ≡ true
    → IsClean this
    → IsClean (with_policy now policies this).0
      × IsSecure now policies this.tls (with_policy now policies this).0
unfolding with_policy
with_policy-IsSecure now policies this valid clean = elim (Bool-cases (str_eq this.host "")) [
  | inl e ↦ absurd (ground (arith, valid, e))
  | inr e ↦ simp e (
    secured-IsClean found this clean,
    record {
      host = λ empty. ground (arith, empty, e, eq_iff this.host "", secured-host found this);
      policy =
          λ policy h. secured-policy found this policy (ground (arith, h, secured-host found this));
    },
  )
]
  where
    found : Option Policy
    found = (get_policy now this.host policies).2

-- Whether the user or, where the network is locked, the configuration asked for TLS.
abbrev pub tls_asked : Config → Network → Bool
tls_asked config this = if config.lock_network then config.default_tls else this.tls

-- The end of `validate` by whether the network is locked, and whether its host is refused then.
abbrev ended :
    Config
    → ℕ
    → Policies
    → Network
    → Bool
    → Bool
    → List Problem
    → Network × Policies × Bool × List Problem
ended config now policies clean is_locked refused problems =
    if is_locked
    then (if refused
        then (clean, policies, false, problems)
        else with_policy now policies (locked config clean))
    else with_policy now policies clean

ended-IsSecure :
    (config : Config) (now : ℕ) (policies : Policies) (clean : Network) (is_locked refused : Bool)
    (problems : List Problem)
    → IsClean clean
    → (ended config now policies clean is_locked refused problems).2 ≡ true
    → IsClean (ended config now policies clean is_locked refused problems).0
      × IsSecure now policies
          (if is_locked then config.default_tls else clean.tls)
          (ended config now policies clean is_locked refused problems).0
unfolding locked
ended-IsSecure config now policies clean true true problems h valid = cc
ended-IsSecure config now policies clean true false problems h valid =
    with_policy-IsSecure now policies (locked config clean) valid (locked-IsClean config clean h)
ended-IsSecure config now policies clean false refused problems h valid =
    with_policy-IsSecure now policies clean valid h

-- A network that is valid has a nick without blanks, !, : and @ of at most 100 characters, a user
-- name, real name, password, leave message and SASL account and password without line breaks and
-- NUL, and a host; if a policy of that host is in force, it connects with TLS, and if TLS was not
-- asked for, to the port of the policy and with certificates checked.
pub validate-IsSecure :
    (locale : Locale) (config : Config) (now : ℕ) (policies : Policies) (this : Network)
    → (validate locale config now policies this).2 ≡ true
    → IsClean (validate locale config now policies this).0
      × IsSecure now policies (tls_asked config this) (validate locale config now policies this).0
unfolding validate cleaned set_nick
validate-IsSecure locale config now policies this valid =
    ended-IsSecure config now policies (cleaned locale config this) config.lock_network _ _
      (cleaned-IsClean locale config this) valid
