-- ===== src/FeWebEncryption.antt =====
-- server/feWebClient/feWebEncryption.ts: the frames of the messages to and from irssi. A buffer is a
-- list of bytes. `crypto` and the UTF-8 coder of Node are parameters.
pub mod Frames
mod Tests
use thelounge.Common.{
  ℕ, ◌-◌, String, Bool, true, false, not, ◌||◌, Option, none, some, List, [], ◌∷◌, ◌++◌, length,
  take, drop, slice, str_eq, if◌then◌else◌, is_some,
}

-- `pbkdf2` with the salt, the iterations and the length of the key, none where it reports an error;
-- AES-256-GCM, which gives the ciphertext and the tag, and its inverse, none where it throws; and
-- UTF-8.
pub record Crypto : Type 0 where
  pub pbkdf2 : String → String → ℕ → ℕ → Option (List ℕ)
  pub seal : List ℕ → List ℕ → List ℕ → List ℕ × List ℕ
  pub unseal : List ℕ → List ℕ → List ℕ → List ℕ → Option (List ℕ)
  pub to_utf8 : String → List ℕ
  pub of_utf8 : List ℕ → String

abbrev pub fe_web_salt : String
fe_web_salt = "irssi-fe-web-v1"

pub record FeWebEncryption : Type 0 where
  pub password : String
  pub key : Option (List ℕ)
  pub enabled : Bool

abbrev pub new_encryption : String → Bool → FeWebEncryption
new_encryption password enabled = record { password = password; key = none; enabled = enabled }

-- The new state, or none where the promise is rejected.
derived : FeWebEncryption → Option (List ℕ) → Option FeWebEncryption
derived this none = none
derived this (some derived_key) = some (record this { key = some derived_key })

unfoldable pub derive_key : Crypto → FeWebEncryption → Option FeWebEncryption
unfolding derived
derive_key crypto this =
    if not this.enabled || str_eq this.password ""
    then some this
    else derived this (crypto.pbkdf2 this.password fe_web_salt 10000 32)

unfoldable pub encrypt_with : Crypto → List ℕ → Bool → Option (List ℕ) → String → List ℕ
encrypt_with crypto iv false key plaintext = crypto.to_utf8 plaintext
encrypt_with crypto iv true none plaintext = crypto.to_utf8 plaintext
encrypt_with crypto iv true (some key) plaintext =
    let (encrypted, tag) = crypto.seal key iv (crypto.to_utf8 plaintext) in iv ++ (encrypted ++ tag)

-- `iv` is what `randomBytes(12)` gives.
unfoldable pub encrypt : Crypto → List ℕ → String → FeWebEncryption → List ℕ
unfolding encrypt_with
encrypt crypto iv plaintext this = encrypt_with crypto iv this.enabled this.key plaintext

unfoldable pub decoded : Crypto → Option (List ℕ) → Option String
decoded crypto none = none
decoded crypto (some plaintext) = some (crypto.of_utf8 plaintext)

unfoldable pub decrypt_with : Crypto → Bool → Option (List ℕ) → List ℕ → Option String
unfolding decoded
decrypt_with crypto false key message = some (crypto.of_utf8 message)
decrypt_with crypto true none message = some (crypto.of_utf8 message)
decrypt_with crypto true (some key) message =
    let iv = slice message 0 12 in
    let tag = drop (length message - 16) message in
    let ciphertext = slice message 12 (length message - 16) in
    decoded crypto (crypto.unseal key iv ciphertext tag)

-- The text, or none where it throws.
unfoldable pub decrypt : Crypto → List ℕ → FeWebEncryption → Option String
unfolding decrypt_with
decrypt crypto message this = decrypt_with crypto this.enabled this.key message

unfoldable pub is_ready : FeWebEncryption → Bool
is_ready this = not this.enabled || is_some this.key

-- `updateKey`: the state after the password and the key are set, and the outcome of `deriveKey`.
unfoldable pub update_key :
    Crypto → String → FeWebEncryption → FeWebEncryption × Option FeWebEncryption
unfolding derive_key
update_key crypto new_password this =
    let changed = record this { password = new_password; key = none } in
    (changed, derive_key crypto changed)
