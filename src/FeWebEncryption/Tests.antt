-- ===== src/FeWebEncryption/Tests.antt =====
-- The encryption of server/feWebClient/feWebEncryption.ts with a small cipher.
use Prim.Native.String.{◌++◌ as append}
use thelounge.Common.{
  ℕ, ◌≡◌, refl, String, true, Option, none, some, List, [], ◌∷◌, codes, if◌then◌else◌, ◌==◌, Bool,
  ◌++◌, ◌↔◌, arith, Bool-cases, ◌&&◌, inl, false, inr,
}
use thelounge.FeWebEncryption.{Crypto, FeWebEncryption, encrypt, decrypt, new_encryption}
use thelounge.FeWebEncryption.Frames.{decrypt-encrypt, IsAuthentic, IsSealed, decrypt_iff}

-- Two letters, for the texts of the tests.
abbrev letter : ℕ → String
letter n = if n == 104 then "h" else if n == 105 then "i" else "?"

abbrev text_of : List ℕ → String
text_of [] = ""
text_of (n ∷ ns) = append (letter n) (text_of ns)

abbrev tag : List ℕ
tag = 1 ∷ 2 ∷ 3 ∷ 4 ∷ 5 ∷ 6 ∷ 7 ∷ 8 ∷ 9 ∷ 10 ∷ 11 ∷ 12 ∷ 13 ∷ 14 ∷ 15 ∷ 16 ∷ []

abbrev crypto : Crypto
crypto = record {
  pbkdf2 = λ password salt iterations size. some (codes password);
  seal = λ key iv message. (0 ∷ message, tag);
  unseal = λ key iv ciphertext given_tag. unsealed ciphertext;
  to_utf8 = codes;
  of_utf8 = text_of;
}
  where
    unsealed : List ℕ → Option (List ℕ)
    unsealed [] = none
    unsealed (_ ∷ message) = some message

abbrev iv : List ℕ
iv = 0 ∷ 0 ∷ 0 ∷ 0 ∷ 0 ∷ 0 ∷ 0 ∷ 0 ∷ 0 ∷ 0 ∷ 0 ∷ 0 ∷ []

abbrev ready : FeWebEncryption
ready = record (new_encryption "secret" true) { key = some (codes "secret") }

decrypt-encrypt_example : decrypt crypto (encrypt crypto iv "hi" ready) ready ≡ some "hi"
decrypt-encrypt_example =
    decrypt-encrypt crypto iv "hi" ready (λ key iv message. refl, λ key iv message. refl) refl refl

abbrev same : List ℕ → List ℕ → Bool
same [] [] = true
same (x ∷ xs) (y ∷ ys) = x == y && same xs ys
same [] (y ∷ ys) = false
same (x ∷ xs) [] = false

same_lem : (xs ys : List ℕ) → same xs ys ≡ true → xs ≡ ys
same_lem [] [] h = refl
same_lem (x ∷ xs) (y ∷ ys) h = ground (arith, h, same_lem xs ys)
same_lem [] (y ∷ ys) h = ground (arith, h)
same_lem (x ∷ xs) [] h = ground (arith, h)

same_refl : (xs : List ℕ) → same xs xs ≡ true
same_refl [] = refl
same_refl (x ∷ xs) = ground (arith, same_refl xs)

-- A cipher that opens a ciphertext only with its tag.
abbrev checked : Crypto
checked = record crypto {
  seal = λ key iv message. (message, tag);
  unseal = λ key iv ciphertext given_tag. if same given_tag tag then some ciphertext else none;
}

checked-IsAuthentic : IsAuthentic checked
checked-IsAuthentic key iv ciphertext given_tag message size opened =
    elim (Bool-cases (same given_tag tag)) [
      | inl e ↦ ground (arith, opened, e, same_lem given_tag tag e)
      | inr e ↦ ground (arith, opened, e)
    ]

abbrev frame : List ℕ
frame = iv ++ (codes "hi" ++ tag)

decrypt_iff_example :
    (decrypt checked frame ready ≡ some "hi") ↔ IsSealed checked (codes "secret") frame "hi"
decrypt_iff_example =
    decrypt_iff checked (codes "secret") frame "hi" ready
      (λ key iv message. refl, λ key iv message. refl) checked-IsAuthentic refl refl (omega arith)

opened_frame : decrypt checked frame ready ≡ some "hi"
unfolding decrypt
opened_frame = refl

refused : decrypt crypto [] ready ≡ none
unfolding decrypt
refused = refl
