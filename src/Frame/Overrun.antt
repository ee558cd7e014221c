-- ===== src/Frame/Overrun.antt =====
-- Where the frame functions leave their buffers.
use c_framework_to_server.Base.{
  ℕ, ◌+◌, ◌-◌, ◌/◌, ◌^◌, ◌≤◌, ◌<◌, ◌≡◌, ◌⊎◌, ◌≢◌, inl, inr, true, false, none, some, List, ◌++◌,
  length, take, drop, Bool-cases, arith, ltb, leb, ◌==◌, ◌||◌, length-append, length-drop,
}
use c_framework_to_server.Memory.{Overlapped, MoveLike}
use c_framework_to_server.Memory.Laws.{slice_prefix, memcpy-move, move_outside, slice_outside}
use c_framework_to_server.Random.{State, srand_get_int32}
use c_framework_to_server.Frame.{
  BlockCipher, SockHead, enc_head_bytes, length_field, sock_head_of, enc_head_of, length_fits,
  encrypt_data, decrypt_body, decrypt_data, add_head, get_socket_send_buff, parse_recv_buff,
}
use c_framework_to_server.Frame.Cipher.{IsCipher}
use c_framework_to_server.Frame.Encrypted.{padding_of, cipher_head, encrypt_padded_lem}

-- getSocketSendBuff asks for room for the data and both heads, and for the padded data and one head,
-- but not for the padded data and both heads. Where the two sizes that it asks for fit in a
-- buffer of max_len bytes and the third does not, it writes outside the buffer.
pub send_encrypted_overruns :
    (aes_encrypt aes_decrypt : BlockCipher) (overlapped : Overlapped)
    → (now request_type keep n max_len : ℕ) (buf : List ℕ) (s : State)
    → IsCipher aes_encrypt aes_decrypt
    → MoveLike overlapped
    → length buf ≡ max_len
    → 14 + n + 10 ≤ max_len
    → 10 + (n + padding_of n) ≤ max_len
    → max_len < 14 + (10 + (n + padding_of n))
    → get_socket_send_buff overlapped aes_encrypt now (some buf) n max_len request_type 1 keep s
      ≡ none
unfolding get_socket_send_buff encrypt_data add_head
send_encrypted_overruns aes_encrypt aes_decrypt overlapped now request_type keep n max_len buf s
      cipher like size room room' over =
    let total = n + padding_of n in
    let first : ltb max_len (n + 14 + 10) ≡ false = ground arith in
    let second : ltb max_len (padding_of n + n + 10) ≡ false = ground arith in
    let (out, made, len, _) =
      encrypt_padded_lem cipher n (padding_of n) (n / 16 + 1) (srand_get_int32 s).0 buf
        (omega arith) (omega arith) in
    let sealed =
      enc_head_bytes (cipher_head total (padding_of n) (srand_get_int32 s).0)
      ++ (out ++ drop (10 + total) buf) in
    let outside : length sealed < 14 + (10 + total) =
      omega (arith, length-append out (drop (10 + total) buf), length-drop (10 + total) buf) in
    rw (
      first,
      second,
      made,
      memcpy-move overlapped 14 0 (10 + total) sealed like,
      move_outside 14 0 (10 + total) sealed outside,
    )

decrypt_body_outside :
    (aes_decrypt : BlockCipher) (total padding : ℕ) (random buf : List ℕ)
    → (total < padding) ⊎ (length buf < 10 + total)
    → decrypt_body aes_decrypt total padding random buf ≡ none
unfolding decrypt_body
decrypt_body_outside aes_decrypt total padding random buf (inl below) =
    let refused : (leb (2 ^ 31) total || ltb total padding) ≡ true = ground arith in rw refused
decrypt_body_outside aes_decrypt total padding random buf (inr beyond) =
    elim (Bool-cases (leb (2 ^ 31) total || ltb total padding)) [
      | inl refused ↦ rw refused
      | inr normal ↦ rw (normal, slice_outside 10 total buf beyond)
    ]

-- parseRecvBuff trusts the enc_head of a client: on a buffer that holds both heads, a frame of the
-- right length whose enc_flag is set and whose enc_head gives a padding above its length, or a
-- length that reaches beyond the buffer, makes it copy outside a buffer.
pub parse_recv_buff_overruns :
    (overlapped : Overlapped) (aes_decrypt : BlockCipher) (s_h : SockHead) (n : ℕ) (buf : List ℕ)
    → let head = sock_head_of (take 14 buf) in
      let inner = enc_head_of (take 10 (drop 14 buf)) in
      24 ≤ length buf
      → 14 ≤ n
      → length_fits n (length_field head.length) ≡ true
      → head.enc_flag ≢ 0
      → (length_field inner.length < inner.padding) ⊎ (length buf < 24 + length_field inner.length)
      → parse_recv_buff overlapped aes_decrypt buf n s_h ≡ none
unfolding parse_recv_buff decrypt_data
parse_recv_buff_overruns overlapped aes_decrypt s_h n buf room whole fits secret bad =
    let inner = enc_head_of (take 10 (drop 14 buf)) in
    let data_size : length (drop 14 buf) ≡ length buf - 14 = length-drop 14 buf in
    let long : ltb n 14 ≡ false = ground arith in
    let flagged : ((sock_head_of (take 14 buf)).enc_flag == 0) ≡ false = ground arith in
    rw (
      long,
      slice_prefix 14 buf (omega arith),
      fits,
      flagged,
      slice_prefix 10 (drop 14 buf) (omega arith),
      decrypt_body_outside aes_decrypt (length_field inner.length) inner.padding inner.random
          (drop 14 buf) (omega arith),
    )
