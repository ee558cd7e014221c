-- ===== src/Frame/Cipher.antt =====
-- The block loops of DbsAesEncrypt and DbsAesDecrypt.
use c_framework_to_server.Base.{
  ℕ, zero, suc, ◌*◌, ◌≡◌, refl, sym, ap, subst, ◌∙◌, some, List, [], ◌++◌, length, take, drop,
  arith, length-append, length-take, length-drop, take-append-drop, drop-append,
}
use c_framework_to_server.Memory.Laws.{slice_parts}
use c_framework_to_server.Frame.{
  BlockCipher, crypt_blocks, block_count, dbs_aes_encrypt, dbs_aes_decrypt,
}

-- What AES does for a key and a block of 16 bytes.
pub record IsCipher (aes_encrypt aes_decrypt : BlockCipher) : Type 0 where
  pub length-encrypt :
      (key block : List ℕ)
      → length key ≡ 16
      → length block ≡ 16
      → length (aes_encrypt key block) ≡ 16
  pub decrypt-encrypt :
      (key block : List ℕ)
      → length key ≡ 16
      → length block ≡ 16
      → aes_decrypt key (aes_encrypt key block) ≡ block

-- One round of the loop.
crypt_blocks_step :
    (f : List ℕ → List ℕ) (n : ℕ) (block buf out : List ℕ)
    → length block ≡ 16
    → crypt_blocks f n buf ≡ some out
    → crypt_blocks f (suc n) (block ++ buf) ≡ some (f block ++ out)
unfolding crypt_blocks
crypt_blocks_step f n block buf out h run = rw (
  slice_parts [] block buf 0 16 refl (sym h),
  drop-append block buf 16 (sym h),
  run,
  crypt_blocks,
)

module _ (f g : List ℕ → List ℕ)
    (length-f : (block : List ℕ) → length block ≡ 16 → length (f block) ≡ 16)
    (g-f : (block : List ℕ) → length block ≡ 16 → g (f block) ≡ block) where
  -- Both loops run to the end, and the second undoes the first.
  abbrev Inverse : ℕ → List ℕ → List ℕ → Type 0
  Inverse n buf out =
      (crypt_blocks f n buf ≡ some out) × (length out ≡ 16 * n) × (crypt_blocks g n out ≡ some buf)

  Inverse-suc :
      (n : ℕ) (block buf out : List ℕ)
      → length block ≡ 16
      → Inverse n buf out
      → Inverse (suc n) (block ++ buf) (f block ++ out)
  Inverse-suc n block buf out h (run, len, back) =
      let l = length-f block h in
      (
        crypt_blocks_step f n block buf out h run,
        omega (arith, length-append (f block) out),
        crypt_blocks_step g n (f block) out buf l back ∙ ap (λ b. some (b ++ buf)) (g-f block h),
      )

  pub crypt_blocks-Inverse :
      (n : ℕ) (buf : List ℕ) → length buf ≡ 16 * n → (out : List ℕ) × Inverse n buf out
  unfolding crypt_blocks
  crypt_blocks-Inverse zero buf h = (buf, (refl, omega arith, refl))
  crypt_blocks-Inverse (suc n) buf h =
      let (rest, inverse) =
        crypt_blocks-Inverse n (drop 16 buf) (omega (arith, length-drop 16 buf)) in
      (
        f (take 16 buf) ++ rest,
        subst (λ b. Inverse (suc n) b (f (take 16 buf) ++ rest)) (take-append-drop 16 buf)
            (Inverse-suc n (take 16 buf) (drop 16 buf) rest (omega (arith, length-take 16 buf))
              inverse),
      )

block_count-blocks : (n : ℕ) → block_count (16 * n) ≡ n
block_count-blocks n = ground arith

-- On whole blocks, DbsAesDecrypt undoes DbsAesEncrypt under the same key.
pub dbs_aes_decrypt-encrypt :
    (aes_encrypt aes_decrypt : BlockCipher) (key buf : List ℕ) (n : ℕ)
    → IsCipher aes_encrypt aes_decrypt
    → length key ≡ 16
    → length buf ≡ 16 * n
    → (out : List ℕ) × (dbs_aes_encrypt aes_encrypt key buf (16 * n) ≡ some out)
      × (length out ≡ 16 * n)
      × (dbs_aes_decrypt aes_decrypt key out (16 * n) ≡ some buf)
unfolding dbs_aes_encrypt dbs_aes_decrypt
dbs_aes_decrypt-encrypt aes_encrypt aes_decrypt key buf n cipher hk h =
    let (out, (run, len, back)) =
      crypt_blocks-Inverse (aes_encrypt key) (aes_decrypt key)
        (λ block. cipher.length-encrypt key block hk) (λ block. cipher.decrypt-encrypt key block hk)
        n buf h in
    let count = block_count-blocks n in
    (
      out,
      ap (λ k. crypt_blocks (aes_encrypt key) k buf) count ∙ run,
      len,
      ap (λ k. crypt_blocks (aes_decrypt key) k out) count ∙ back,
    )
