-- ===== src/Frame/Exchange.antt =====
-- encryptData and decryptData of cFrameworkToServer/utils/en_de_crypt.c, one after the other.
use c_framework_to_server.Base.{
  ℕ, ◌+◌, ◌*◌, ◌/◌, ◌^◌, ◌≤◌, ◌<◌, ◌≡◌, refl, sym, ap, ◌∙◌, false, some, List, ◌++◌, length, take,
  drop, arith, ltb, length-append, length-take, length-drop, take-append,
}
use mathlib.Core.List.{append_assoc}
use c_framework_to_server.Base.Int.{pos}
use c_framework_to_server.Random.{State, srand_get_int32}
use c_framework_to_server.Frame.{BlockCipher, enc_head_bytes, result, encrypt_data, decrypt_data}
use c_framework_to_server.Frame.Cipher.{IsCipher}
use c_framework_to_server.Frame.Encrypted.{
  padding_of, cipher_head, encrypt_padded_lem, decrypt_data_lem,
}

module _ {aes_encrypt aes_decrypt : BlockCipher} (cipher : IsCipher aes_encrypt aes_decrypt) where
  whole_blocks : (n : ℕ) → n + padding_of n ≡ 16 * (n / 16 + 1)
  whole_blocks n = omega arith

  -- encryptData and decryptData: for data of n bytes at the front of a buffer in which the padded
  -- data and the enc_head fit, and which maxLen does not exceed the room of, encryptData draws one
  -- random number and returns the length of the enc_head and the padded data; and decryptData, given
  -- these bytes with any bytes behind them, returns n and a buffer that begins with the n bytes. The
  -- block cipher decrypts what it encrypts.
  pub decrypt_data-encrypt_data :
      (n max_len : ℕ) (buf : List ℕ) (s : State)
      → let len = 10 + (n + padding_of n) in
        len ≤ max_len
        → len ≤ length buf
        → length buf < 2 ^ 31
        → (sealed : List ℕ) × (encrypt_data aes_encrypt (some buf) n max_len 1 s
            ≡ some (result (pos len) sealed, (srand_get_int32 s).1))
          × (length sealed ≡ length buf)
          × ((rest : List ℕ)
              → (opened : List ℕ) × (decrypt_data aes_decrypt (some (take len sealed ++ rest)) 1
                  ≡ some (result (pos n) opened))
                × (take n opened ≡ take n buf))
  unfolding encrypt_data
  decrypt_data-encrypt_data n max_len buf s room inside small =
      let total = n + padding_of n in
      let random = (srand_get_int32 s).0 in
      let head = enc_head_bytes (cipher_head total (padding_of n) random) in
      let fits : ltb max_len (padding_of n + n + 10) ≡ false = ground arith in
      let (out, run, len, back) =
        encrypt_padded_lem cipher n (padding_of n) (n / 16 + 1) random buf (whole_blocks n)
          inside in
      let behind = drop (10 + total) buf in
      let front : take (10 + total) (head ++ (out ++ behind)) ≡ head ++ out =
        ap (take (10 + total)) (sym (append_assoc head out behind))
        ∙ take-append (head ++ out) behind (10 + total) (omega (arith, length-append head out)) in
      let whole : length (take n buf) ≡ n = omega (arith, length-take n buf) in
      (
        head ++ (out ++ behind),
        rw (fits, run) refl,
        omega (arith, length-append out behind, length-drop (10 + total) buf),
        λ rest.
            let shape = ap (λ b. b ++ rest) front ∙ append_assoc head out rest in
            (
              take n buf ++ drop n (head ++ (out ++ rest)),
              ap (λ b. decrypt_data aes_decrypt (some b) 1) shape
                  ∙ decrypt_data_lem cipher n (padding_of n) random (take n buf) out rest whole
                      (omega arith) len back,
              take-append (take n buf) (drop n (head ++ (out ++ rest))) n (sym whole),
            ),
      )
