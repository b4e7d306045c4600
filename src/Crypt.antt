-- ===== src/Crypt.antt =====
-- app/libwebsockets-master/srl/EncDec.c: the user name and the password of a card are encrypted with
-- AES-128 in CFB8 mode under a fixed key and a fixed initialisation vector (both from crypt.h, which
-- the repository does not hold). The cipher itself is PolarSSL's and stands here as an interface.
pub mod Laws
use secure_rfid_login.Common.{ℕ, Bool, true, false, Option, none, some, List, if◌then◌else◌, take}

abbrev pub key_length : ℕ
key_length = 128

abbrev pub iv_length : ℕ
iv_length = 16

abbrev pub max_block_size : ℕ
max_block_size = 64

pub data Mode : Type 0 where
  aes_encrypt aes_decrypt : Mode

-- What EncDec.c calls of PolarSSL. `setkey_enc` answers `none` where the C function returns an
-- error; `crypt_cfb8 ctx mode len iv input output` is whether it returned 0, and the output buffer
-- afterwards.
pub record Aes (Context : Type 0) : Type 0 where
  pub setkey_enc : List ℕ → ℕ → Option Context
  pub crypt_cfb8 : Context → Mode → ℕ → List ℕ → List ℕ → List ℕ → Bool × List ℕ

module _ {Context : Type 0} (aes : Aes Context) (static_key random_iv : List ℕ) where
  -- The result, and what `output` holds afterwards.
  pub enc_cfb : ℕ → List ℕ → List ℕ → Bool × List ℕ
  enc_cfb len input output = elim (aes.setkey_enc static_key key_length) [
    | none ↦ (false, output)
    | some ctx ↦ aes.crypt_cfb8 ctx aes_encrypt len (take iv_length random_iv) input output
  ]

  unfoldable pub dec_cfb : ℕ → List ℕ → List ℕ → Bool × List ℕ
  dec_cfb len input output = elim (aes.setkey_enc static_key key_length) [
    | none ↦ (false, output)
    | some ctx ↦ aes.crypt_cfb8 ctx aes_decrypt len (take iv_length random_iv) input output
  ]

  -- The result, and what `enc_username` and `enc_password` hold afterwards.
  unfoldable pub encrypt_data :
      (username password enc_username enc_password : List ℕ) → Bool × List ℕ × List ℕ
  unfolding enc_cfb
  encrypt_data username password enc_username enc_password =
      let (user_ok, enc_username') = enc_cfb max_block_size username enc_username in
      let (password_ok, enc_password') = enc_cfb max_block_size password enc_password in
      if user_ok
      then (password_ok, enc_username', enc_password')
      else (false, enc_username', enc_password)

  -- The result, and what `username` and `password` hold afterwards.
  unfoldable pub decrypt_data :
      (enc_username enc_password username password : List ℕ) → Bool × List ℕ × List ℕ
  unfolding dec_cfb
  decrypt_data enc_username enc_password username password =
      let (user_ok, username') = dec_cfb max_block_size enc_username username in
      let (password_ok, password') = dec_cfb max_block_size enc_password password in
      if user_ok then (password_ok, username', password') else (false, username', password)
