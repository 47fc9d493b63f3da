-- ===== src/FeWebEncryption/Frames.antt =====
-- The frames of server/feWebClient/feWebEncryption.ts: what is encrypted can be decrypted.
use thelounge.Common.{
  ℕ, ◌+◌, ◌-◌, ◌≡◌, refl, ◌∙◌, String, Bool, true, false, Option, none, some, List, [], ◌∷◌, ◌++◌,
  length, take, drop, slice, arith, length-append, drop-drop, subst, ap, suc, ◌≤◌, sym, zero,
  take-append-drop, ◌↔◌, length-drop,
}
use thelounge.FeWebEncryption.{
  Crypto, FeWebEncryption, encrypt, decrypt, encrypt_with, decrypt_with, decoded,
}

-- What `crypto` is documented to do: a tag has 16 bytes, and a message comes back under the key, the
-- initialization vector and the tag it was sealed with.
abbrev pub IsSound : Crypto → Type 0
IsSound crypto =
    ((key iv message : List ℕ) → length (crypto.seal key iv message).1 ≡ 16)
    × ((key iv message : List ℕ)
        → crypto.unseal key iv (crypto.seal key iv message).0 (crypto.seal key iv message).1
          ≡ some message)

drop_exact {ℓ} : {A : Type ℓ} (xs ys : List A) → drop (length xs) (xs ++ ys) ≡ ys
drop_exact [] ys = refl
drop_exact (x ∷ xs) ys = drop_exact xs ys

take_exact {ℓ} : {A : Type ℓ} (xs ys : List A) → take (length xs) (xs ++ ys) ≡ xs
take_exact [] ys = refl
take_exact (x ∷ xs) ys = ap (◌∷◌ x) (take_exact xs ys)

-- The three parts of a frame.
module _ (iv body tag : List ℕ) (p : length iv ≡ 12) (q : length tag ≡ 16) where
  abbrev frame : List ℕ
  frame = iv ++ (body ++ tag)

  frame-length : length frame - 16 ≡ length iv + length body
  frame-length = omega (arith, length-append iv (body ++ tag), length-append body tag)

  frame-iv : slice frame 0 12 ≡ iv
  frame-iv = subst (λ n. take n frame ≡ iv) p (take_exact iv (body ++ tag))

  frame-rest : drop 12 frame ≡ body ++ tag
  frame-rest = subst (λ n. drop n frame ≡ body ++ tag) p (drop_exact iv (body ++ tag))

  frame-tag : drop (length frame - 16) frame ≡ tag
  frame-tag =
      ap (λ n. drop n frame) frame-length
      ∙ drop-drop (length iv) (length body) frame
      ∙ ap (drop (length body)) (drop_exact iv (body ++ tag))
      ∙ drop_exact body tag

  frame-body : slice frame 12 (length frame - 16) ≡ body
  frame-body =
      let size : length frame - 16 - 12 ≡ length body = omega (arith, frame-length) in
      ap (λ n. take n (drop 12 frame)) size
      ∙ ap (take (length body)) frame-rest
      ∙ take_exact body tag

-- Whatever the state of the encryption, what it encrypts it decrypts to the same text: with a key
-- through the frame of vector, ciphertext and tag, without one, or disabled, as plain bytes. The
-- vector has 12 bytes, `crypto` does what it is documented to, and UTF-8 can express the text.
pub decrypt-encrypt :
    (crypto : Crypto) (iv : List ℕ) (text : String) (this : FeWebEncryption)
    → IsSound crypto
    → length iv ≡ 12
    → crypto.of_utf8 (crypto.to_utf8 text) ≡ text
    → decrypt crypto (encrypt crypto iv text this) this ≡ some text
unfolding decrypt encrypt decrypt_with encrypt_with
decrypt-encrypt crypto iv text this (tags, opens) size encoded = go this.enabled this.key
  where
    go :
        (enabled : Bool) (key : Option (List ℕ))
        → decrypt_with crypto enabled key (encrypt_with crypto iv enabled key text) ≡ some text
    go false key = ap some encoded
    go true none = ap some encoded
    go true (some key) =
        let (body, tag) = crypto.seal key iv (crypto.to_utf8 text) in
        let sealed = tags key iv (crypto.to_utf8 text) in
        rw
          (
            frame-iv iv body tag size sealed,
            frame-body iv body tag size sealed,
            frame-tag iv body tag size sealed,
          )
          (rw (opens key iv (crypto.to_utf8 text)) (ap some encoded))

-- Also documented: what is opened is what was sealed, under the key and the vector, to this ciphertext
-- and this tag of 16 bytes; any other opening throws.
abbrev pub IsAuthentic : Crypto → Type 0
IsAuthentic crypto =
    (key iv ciphertext tag message : List ℕ)
    → length tag ≡ 16
    → crypto.unseal key iv ciphertext tag ≡ some message
    → crypto.seal key iv message ≡ (ciphertext, tag)

-- The bytes are the frame of a message sealed under the key, whose text this is.
abbrev pub IsSealed : Crypto → List ℕ → List ℕ → String → Type 0
IsSealed crypto key bytes text =
    (iv message : List ℕ) × (length iv ≡ 12)
    × (bytes ≡ iv ++ ((crypto.seal key iv message).0 ++ (crypto.seal key iv message).1))
    × (crypto.of_utf8 message ≡ text)

length-take_of_le {ℓ} : {A : Type ℓ} (n : ℕ) (xs : List A) → n ≤ length xs → length (take n xs) ≡ n
length-take_of_le zero xs h = refl
length-take_of_le (suc n) [] h = absurd (omega (arith, h))
length-take_of_le (suc n) (x ∷ xs) h = omega (arith, length-take_of_le n xs (omega (arith, h)))

-- The parts that are cut out of a frame of 28 bytes or more, put together.
parts_lem :
    (bytes : List ℕ)
    → 28 ≤ length bytes
    → slice bytes 0 12 ++ (slice bytes 12 (length bytes - 16) ++ drop (length bytes - 16) bytes)
      ≡ bytes
parts_lem bytes h =
    let size : 12 + (length bytes - 16 - 12) ≡ length bytes - 16 = omega (arith, h) in
    let last : drop (length bytes - 16) bytes ≡ drop (length bytes - 16 - 12) (drop 12 bytes) =
      ap (λ n. drop n bytes) (sym size) ∙ drop-drop 12 (length bytes - 16 - 12) bytes in
    ap (λ end. take 12 bytes ++ (take (length bytes - 16 - 12) (drop 12 bytes) ++ end)) last
    ∙ ap (◌++◌ (take 12 bytes)) (take-append-drop (length bytes - 16 - 12) (drop 12 bytes))
    ∙ take-append-drop 12 bytes

decoded-some :
    (crypto : Crypto) (opened : Option (List ℕ)) (text : String)
    → decoded crypto opened ≡ some text
    → (message : List ℕ) × (opened ≡ some message) × (crypto.of_utf8 message ≡ text)
unfolding decoded
decoded-some crypto none text h = ground (arith, h)
decoded-some crypto (some message) text h = (message, refl, ground (arith, h))

module _ (crypto : Crypto) (key bytes : List ℕ) (text : String) (sound : IsSound crypto)
    (authentic : IsAuthentic crypto) where
  decrypt_with→IsSealed :
      28 ≤ length bytes
      → decrypt_with crypto true (some key) bytes ≡ some text
      → IsSealed crypto key bytes text
  unfolding decrypt_with
  decrypt_with→IsSealed size h =
      let iv : List ℕ = slice bytes 0 12 in
      let tag : List ℕ = drop (length bytes - 16) bytes in
      let ciphertext : List ℕ = slice bytes 12 (length bytes - 16) in
      let (message, opened, shown) =
        decoded-some crypto (crypto.unseal key iv ciphertext tag) text h in
      let whole : length tag ≡ 16 = omega (arith, length-drop (length bytes - 16) bytes, size) in
      let sealed = authentic key iv ciphertext tag message whole opened in
      (
        iv,
        message,
        length-take_of_le 12 bytes (omega (arith, size)),
        rw sealed (sym (parts_lem bytes size)),
        shown,
      )

  IsSealed→decrypt_with :
      IsSealed crypto key bytes text → decrypt_with crypto true (some key) bytes ≡ some text
  unfolding decrypt_with decoded
  IsSealed→decrypt_with (iv, message, size, frame_of, shown) =
      let (body, tag) = crypto.seal key iv message in
      let whole = sound.0 key iv message in
      rw
        (
          frame_of,
          frame-iv iv body tag size whole,
          frame-body iv body tag size whole,
          frame-tag iv body tag size whole,
          sound.1 key iv message,
        )
        (ap some shown)

-- With a key, an encryption that is enabled decrypts a frame of 28 bytes or more to a text exactly when
-- it is the frame of a message that was sealed under the key, and the text is that message's; any other
-- frame throws. `crypto` does what it is documented to.
pub decrypt_iff :
    (crypto : Crypto) (key bytes : List ℕ) (text : String) (this : FeWebEncryption)
    → IsSound crypto
    → IsAuthentic crypto
    → this.enabled ≡ true
    → this.key ≡ some key
    → 28 ≤ length bytes
    → (decrypt crypto bytes this ≡ some text) ↔ IsSealed crypto key bytes text
unfolding decrypt
decrypt_iff crypto key bytes text this sound authentic on keyed size =
    simp (on, keyed)
      (
        decrypt_with→IsSealed crypto key bytes text sound authentic size,
        IsSealed→decrypt_with crypto key bytes text sound authentic,
      )
