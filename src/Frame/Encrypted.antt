-- ===== src/Frame/Encrypted.antt =====
-- An encrypted frame: encryptData, decryptData and the functions that call them.
use c_framework_to_server.Base.{
  ℕ, ◌+◌, ◌-◌, ◌*◌, ◌%◌, ◌^◌, ◌≤◌, ◌<◌, ◌≡◌, refl, sym, ap, ◌∙◌, false, some, List, [], ◌++◌,
  length, take, drop, replicate, arith, ltb, leb, ◌||◌, length-append, length-take,
  length-replicate, take-append,
}
use c_framework_to_server.Base.Int.{pos}
use c_framework_to_server.Memory.{◌>>=◌}
use c_framework_to_server.Memory.Laws.{slice_parts, slice_prefix, store_prefix, store_next}
use c_framework_to_server.Random.{int32_bytes}
use c_framework_to_server.Frame.{
  BlockCipher, EncHead, enc_head_bytes, length_bytes, result, encrypt_padded, decrypt_body,
  decrypt_data, dbs_aes_encrypt, dbs_aes_decrypt,
}
use c_framework_to_server.Frame.Heads.{length_field-length_bytes}
use c_framework_to_server.Frame.Cipher.{IsCipher, dbs_aes_decrypt-encrypt}

abbrev pub padding_of : ℕ → ℕ
padding_of n = 16 - n % 16

-- The key that both sides derive from the random number.
abbrev pub key_of : ℕ → List ℕ
key_of random = int32_bytes random ++ replicate 12 0

abbrev pub cipher_head : (total padding random : ℕ) → EncHead
cipher_head total padding random = record {
  enc_type = 1;
  length = length_bytes total;
  padding = padding;
  random = int32_bytes random;
}

module _ {aes_encrypt aes_decrypt : BlockCipher} (cipher : IsCipher aes_encrypt aes_decrypt) where
  -- The front of the buffer becomes an enc_head and whole blocks that decrypt to the padded data.
  pub encrypt_padded_lem :
      (n padding blocks random : ℕ) (buf : List ℕ)
      → n + padding ≡ 16 * blocks
      → 10 + (n + padding) ≤ length buf
      → (out : List ℕ) × (encrypt_padded aes_encrypt n padding random 1 buf
          ≡ some (
              result (pos (10 + (n + padding))) (
                enc_head_bytes (cipher_head (n + padding) padding random)
                ++ (out ++ drop (10 + (n + padding)) buf))))
        × (length out ≡ n + padding)
        × (dbs_aes_decrypt aes_decrypt (key_of random) out (n + padding)
            ≡ some (take n buf ++ replicate padding 0))
  unfolding encrypt_padded
  encrypt_padded_lem n padding blocks random buf whole inside =
      let input = take n buf ++ replicate padding 0 in
      let size : length input ≡ 16 * blocks = omega (
        arith,
        length-append (take n buf) (replicate padding 0),
        length-take n buf,
        length-replicate {A = ℕ} padding 0,
      ) in
      let (out, run, len, back) =
        dbs_aes_decrypt-encrypt aes_encrypt aes_decrypt (key_of random) input blocks cipher refl
          size in
      (
        out,
        rw
            (
              slice_prefix n buf (omega arith),
              ap (dbs_aes_encrypt aes_encrypt (key_of random) input) whole ∙ run,
              store_prefix (enc_head_bytes (cipher_head (n + padding) padding random)) buf 10 refl
                  (omega arith),
            )
            (ap (λ m. m >>= (λ b. some (result (pos (10 + (n + padding))) b)))
              (store_next (enc_head_bytes (cipher_head (n + padding) padding random)) out buf 10
                (n + padding) refl (omega arith) inside)),
        omega arith,
        rw whole back,
      )

  decrypt_body_lem :
      (n padding : ℕ) (random head input out rest : List ℕ)
      → length head ≡ 10
      → length input ≡ n
      → n + padding < 2 ^ 31
      → length out ≡ n + padding
      → dbs_aes_decrypt aes_decrypt (random ++ replicate 12 0) out (n + padding)
        ≡ some (input ++ replicate padding 0)
      → let buf = head ++ (out ++ rest) in
        decrypt_body aes_decrypt (n + padding) padding random buf
        ≡ some (result (pos n) (input ++ drop n buf))
  unfolding decrypt_body
  decrypt_body_lem n padding random head input out rest hh hn small len back =
      let buf : List ℕ = head ++ (out ++ rest) in
      let normal : (leb (2 ^ 31) (n + padding) || ltb (n + padding) padding) ≡ false =
        ground arith in
      let left : n + padding - padding ≡ n = omega arith in
      rw (
        normal,
        slice_parts head out rest 10 (n + padding) (sym hh) (sym len),
        back,
        left,
        take-append input (replicate padding 0) n (sym hn),
        store_prefix input buf n hn
            (omega (arith, length-append head (out ++ rest), length-append out rest)),
      )

  -- decryptData on the head and the blocks that encryptData leaves.
  pub decrypt_data_lem :
      (n padding random : ℕ) (input out rest : List ℕ)
      → length input ≡ n
      → n + padding < 2 ^ 31
      → length out ≡ n + padding
      → dbs_aes_decrypt aes_decrypt (key_of random) out (n + padding)
        ≡ some (input ++ replicate padding 0)
      → let buf = enc_head_bytes (cipher_head (n + padding) padding random) ++ (out ++ rest) in
        decrypt_data aes_decrypt (some buf) 1 ≡ some (result (pos n) (input ++ drop n buf))
  unfolding decrypt_data
  decrypt_data_lem n padding random input out rest hn small len back =
      let head = enc_head_bytes (cipher_head (n + padding) padding random) in
      rw (slice_parts [] head (out ++ rest) 0 10 refl refl) (
        ap (λ k. decrypt_body aes_decrypt k padding (int32_bytes random) (head ++ (out ++ rest)))
          (length_field-length_bytes (n + padding) (omega arith))
        ∙ decrypt_body_lem n padding (int32_bytes random) head input out rest refl hn small len
            back)
