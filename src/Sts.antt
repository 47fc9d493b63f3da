-- ===== src/Sts.antt =====
-- server/plugins/sts.ts: the strict transport security policies of hosts. Writing the file is an
-- effect; `refresh` is the debounced call of `saveFile`.
use thelounge.Common.{
  ℕ, ◌+◌, ◌*◌, String, Bool, true, false, Option, none, some, List, [], ◌∷◌, ltb, leb,
  if◌then◌else◌,
}
use thelounge.Common.Dict.{Dict, get, set, delete}

pub record Policy : Type 0 where
  pub port : ℕ
  pub duration : ℕ
  pub expires : ℕ

-- The policies by host; the second part of a result is whether `refresh` was called.
abbrev pub Policies : Type 0
Policies = Dict Policy

-- The constructor: what the file has and is not yet expired.
unfoldable pub load_policies : ℕ → List (String × Policy) → Policies → Policies
load_policies now [] this = this
load_policies now ((host, policy) ∷ rest) this =
    load_policies now rest (if ltb now policy.expires then set host policy this else this)

get_if_current : ℕ → String → Option Policy → Policies → Policies × Bool × Option Policy
get_if_current now host none this = (this, false, none)
get_if_current now host (some policy) this =
    if leb policy.expires now then (delete host this, true, none) else (this, false, some policy)

unfoldable pub get_policy : ℕ → String → Policies → Policies × Bool × Option Policy
unfolding get_if_current
get_policy now host this = get_if_current now host (get host this) this

unfoldable pub update_policy : ℕ → String → ℕ → ℕ → Policies → Policies × Bool
update_policy now host port duration this = (
  (if ltb 0 duration
      then set host (record { port = port; duration = duration; expires = now + duration * 1000 })
          this
      else delete host this),
  true,
)

renewed : ℕ → String → Option Policy → Policies → Policies
renewed now host none this = this
renewed now host (some policy) this =
    set host (record policy { expires = now + policy.duration * 1000 }) this

unfoldable pub refresh_expiration : ℕ → String → Policies → Policies
unfolding renewed
refresh_expiration now host this = renewed now host (get host this) this

-- `saveFile`: the policies in the order of the map.
unfoldable pub save_file : Policies → List (String × Policy)
save_file this = this
