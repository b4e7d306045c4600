-- ===== src/Crypt/Laws.antt =====
-- What encryption and decryption of a card's credentials promise, from the documented behaviour of
-- the cipher.
use secure_rfid_login.Common.{
  ℕ, ◌≤◌, ◌≡◌, ◌∙◌, Bool, true, some, List, length, take, take_all, arith,
}
use secure_rfid_login.Crypt.{
  Aes, Mode, aes_encrypt, aes_decrypt, key_length, iv_length, max_block_size, enc_cfb, dec_cfb,
  encrypt_data, decrypt_data,
}

-- The documented behaviour of PolarSSL that the round trip rests on: a 128-bit key is accepted, a call
-- on buffers of at least `len` bytes succeeds and leaves the output buffer its size, and in CFB mode
-- decryption under the same key and vector undoes encryption on the bytes that were processed.
pub record IsCfb {Context : Type 0} (aes : Aes Context) (static_key : List ℕ) : Type 0 where
  pub context : Context
  pub accepts_key : aes.setkey_enc static_key key_length ≡ some context
  pub succeeds :
      (mode : Mode) (len : ℕ) (iv input output : List ℕ)
      → len ≤ length input
      → len ≤ length output
      → (aes.crypt_cfb8 context mode len iv input output).0 ≡ true
  pub keeps_size :
      (mode : Mode) (len : ℕ) (iv input output : List ℕ)
      → length (aes.crypt_cfb8 context mode len iv input output).1 ≡ length output
  pub decrypts :
      (len : ℕ) (iv input out_1 out_2 : List ℕ)
      → len ≤ length input
      → len ≤ length out_1
      → len ≤ length out_2
      → let cipher : List ℕ = (aes.crypt_cfb8 context aes_encrypt len iv input out_1).1 in
        take len (aes.crypt_cfb8 context aes_decrypt len iv cipher out_2).1 ≡ take len input

-- A call that succeeded and left `n` bytes, the first `n` of which are known.
result_eq :
    (r : Bool × List ℕ) (n : ℕ) (xs : List ℕ)
    → r.0 ≡ true
    → length r.1 ≡ n
    → length xs ≡ n
    → take n r.1 ≡ take n xs
    → r ≡ (true, xs)
result_eq (ok, out) n xs h l k e =
    ground (arith, take_all out {n = n} (omega arith), take_all xs {n = n} (omega arith))

module _ {Context : Type 0} (aes : Aes Context) (static_key random_iv : List ℕ) where
  enc_cfb_lem :
      (cfb : IsCfb aes static_key) (input output : List ℕ)
      → enc_cfb aes static_key random_iv max_block_size input output
        ≡ aes.crypt_cfb8 cfb.context aes_encrypt max_block_size
            (take iv_length random_iv)
            input
            output
  unfolding enc_cfb
  enc_cfb_lem cfb input output = rw (cfb.accepts_key, enc_cfb)

  dec_cfb_lem :
      (cfb : IsCfb aes static_key) (input output : List ℕ)
      → dec_cfb aes static_key random_iv max_block_size input output
        ≡ aes.crypt_cfb8 cfb.context aes_decrypt max_block_size
            (take iv_length random_iv)
            input
            output
  unfolding dec_cfb
  dec_cfb_lem cfb input output = rw (cfb.accepts_key, dec_cfb)

  enc_cfb_ok :
      (cfb : IsCfb aes static_key) (input out : List ℕ)
      → length input ≡ max_block_size
      → length out ≡ max_block_size
      → let (ok, cipher) = enc_cfb aes static_key random_iv max_block_size input out in
        (ok ≡ true) × (length cipher ≡ max_block_size)
  enc_cfb_ok cfb input out h k = rw (enc_cfb_lem cfb) (
    cfb.succeeds aes_encrypt max_block_size (take iv_length random_iv) input out (omega arith)
        (omega arith),
    cfb.keeps_size aes_encrypt max_block_size (take iv_length random_iv) input out ∙ k,
  )

  -- One 64-byte field survives encryption and decryption.
  dec_cfb-enc_cfb :
      (cfb : IsCfb aes static_key) (input out_1 out_2 : List ℕ)
      → length input ≡ max_block_size
      → length out_1 ≡ max_block_size
      → length out_2 ≡ max_block_size
      → let cipher : List ℕ = (enc_cfb aes static_key random_iv max_block_size input out_1).1 in
        dec_cfb aes static_key random_iv max_block_size cipher out_2 ≡ (true, input)
  dec_cfb-enc_cfb cfb input out_1 out_2 h k l =
      rw (enc_cfb_lem cfb, dec_cfb_lem cfb)
        (result_eq _ max_block_size input
          (cfb.succeeds aes_decrypt max_block_size iv cipher out_2
            (omega (arith, cfb.keeps_size aes_encrypt max_block_size iv input out_1)) (omega arith))
          (cfb.keeps_size aes_decrypt max_block_size iv cipher out_2 ∙ l) h
          (cfb.decrypts max_block_size iv input out_1 out_2 (omega arith) (omega arith)
            (omega arith)))
    where
      iv : List ℕ
      iv = take iv_length random_iv

      cipher : List ℕ
      cipher = (aes.crypt_cfb8 cfb.context aes_encrypt max_block_size iv input out_1).1

  -- Encrypting a user name and a password succeeds, and decrypting what it leaves in 64-byte buffers
  -- succeeds and gives both back.
  pub decrypt_data-encrypt_data :
      (cfb : IsCfb aes static_key)
      (username password enc_username enc_password out_username out_password : List ℕ)
      → length username ≡ max_block_size
      → length password ≡ max_block_size
      → length enc_username ≡ max_block_size
      → length enc_password ≡ max_block_size
      → length out_username ≡ max_block_size
      → length out_password ≡ max_block_size
      → let (ok, cipher_u, cipher_p) =
          encrypt_data aes static_key random_iv username password enc_username enc_password in
        (ok ≡ true)
        × (decrypt_data aes static_key random_iv cipher_u cipher_p out_username out_password
            ≡ (true, username, password))
  unfolding encrypt_data decrypt_data
  decrypt_data-encrypt_data cfb u p eu ep ou op hu hp heu hep hou hop = ground (
    arith,
    enc_cfb_ok cfb u eu hu heu,
    enc_cfb_ok cfb p ep hp hep,
    dec_cfb-enc_cfb cfb u eu ou hu heu hou,
    dec_cfb-enc_cfb cfb p ep op hp hep hop,
  )

  pub length-encrypt_data :
      (cfb : IsCfb aes static_key) (username password enc_username enc_password : List ℕ)
      → length username ≡ max_block_size
      → length password ≡ max_block_size
      → length enc_username ≡ max_block_size
      → length enc_password ≡ max_block_size
      → let (_, cipher_u, cipher_p) =
          encrypt_data aes static_key random_iv username password enc_username enc_password in
        (length cipher_u ≡ max_block_size) × (length cipher_p ≡ max_block_size)
  unfolding encrypt_data
  length-encrypt_data cfb u p eu ep hu hp heu hep =
      ground (arith, enc_cfb_ok cfb u eu hu heu, enc_cfb_ok cfb p ep hp hep)
