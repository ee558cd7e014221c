-- ===== src/Frame/Tests.antt =====
-- The frame functions at concrete buffers, with a cipher that swaps the halves of a block and a
-- memcpy that is a memmove.
use c_framework_to_server.Base.{
  ℕ, ◌-◌, ◌≤◌, ◌≡◌, refl, ap, ◌∙◌, ◌↔◌, inl, inr, none, some, List, [], ◌∷◌, ◌++◌, length, take,
  drop, replicate, arith, length-append, length-take, length-drop, take-append, drop-append,
  take-append-drop,
}
use c_framework_to_server.Base.Int.{pos}
use c_framework_to_server.Basic.{endian_dwrd}
use c_framework_to_server.Memory.{slice, store, move, memcpy, copy_forward, MoveLike}
use c_framework_to_server.Random.{State, srand_init, srand_get_int32}
use c_framework_to_server.Frame.{
  BlockCipher, SockHead, result, length_field, encrypt_data, decrypt_data, get_socket_send_buff,
  parse_recv_buff, is_recv_ok,
}
use c_framework_to_server.Frame.Heads.{answer_head}
use c_framework_to_server.Frame.Cipher.{IsCipher}
use c_framework_to_server.Frame.Plain.{parse-send_plain}
use c_framework_to_server.Frame.Exchange.{decrypt_data-encrypt_data}
use c_framework_to_server.Frame.Accept.{magic, is_recv_ok_iff}
use c_framework_to_server.Frame.Overrun.{send_encrypted_overruns, parse_recv_buff_overruns}

abbrev swap_halves : BlockCipher
swap_halves key block = drop 8 block ++ take 8 block

swap_halves-IsCipher : IsCipher swap_halves swap_halves
swap_halves-IsCipher = record {
  length-encrypt = λ key block hk h. omega (
    arith,
    length-append (drop 8 block) (take 8 block),
    length-drop 8 block,
    length-take 8 block,
  );
  decrypt-encrypt = λ key block hk h.
      let size : 8 ≡ length (drop 8 block) = omega (arith, length-drop 8 block) in
      ap (λ b. b ++ take 8 (drop 8 block ++ take 8 block))
        (drop-append (drop 8 block) (take 8 block) 8 size)
      ∙ ap (◌++◌ (take 8 block)) (take-append (drop 8 block) (take 8 block) 8 size)
      ∙ take-append-drop 8 block;
}

move-MoveLike : MoveLike move
move-MoveLike dst src n buf = refl

-- "hi" at the front of a buffer of 64 bytes.
abbrev small_buffer : List ℕ
small_buffer = 104 ∷ 105 ∷ replicate 62 0

abbrev no_head : SockHead
no_head = record {
  magic_word = [];
  request_type = 0;
  keep_alive = 0;
  enc_flag = 0;
  time = [];
  length = [];
}

abbrev start : State
start = srand_init 7 (record { x0 = 0; x1 = 0; x2 = 0; a0 = 0; a1 = 0; a2 = 0; c = 0 })

parse-send_plain_example :
    (sent got : List ℕ) × (get_socket_send_buff copy_forward swap_halves 5
        (some small_buffer)
        2
        64
        1
        0
        1
        start
      ≡ some (result (pos 16) sent, start))
    × (is_recv_ok sent 16 ≡ some (pos 0))
    × (parse_recv_buff copy_forward swap_halves sent 16 no_head
        ≡ some (result (pos 2) got, answer_head 5 1 0 1 2))
    × (take 2 got ≡ 104 ∷ 105 ∷ [])
parse-send_plain_example =
    parse-send_plain copy_forward swap_halves swap_halves no_head 5 1 1 2 64 small_buffer start
      (inr (omega arith)) (omega arith) (omega arith) (omega arith)

decrypt_data-encrypt_data_example :
    (sealed : List ℕ) × (encrypt_data swap_halves (some small_buffer) 2 64 1 start
      ≡ some (result (pos 26) sealed, (srand_get_int32 start).1))
    × (length sealed ≡ 64)
    × ((rest : List ℕ)
        → (opened : List ℕ) × (decrypt_data swap_halves (some (take 26 sealed ++ rest)) 1
            ≡ some (result (pos 2) opened))
          × (take 2 opened ≡ 104 ∷ 105 ∷ []))
decrypt_data-encrypt_data_example =
    decrypt_data-encrypt_data swap_halves-IsCipher 2 64 small_buffer start (omega arith)
      (omega arith) (omega arith)

-- 22 bytes of data in a buffer of 46: both checks pass, and 56 bytes would be written.
send_encrypted_overruns_example :
    get_socket_send_buff move swap_halves 5 (some (replicate 46 7)) 22 46 1 1 1 start ≡ none
send_encrypted_overruns_example =
    send_encrypted_overruns swap_halves swap_halves move 5 1 1 22 46 (replicate 46 7) start
      swap_halves-IsCipher move-MoveLike refl (omega arith) (omega arith) (omega arith)

-- An encrypted frame of 24 bytes whose enc_head has length 0 and padding 1.
abbrev bad_frame : List ℕ
bad_frame =
    magic
    ++ (1 ∷ 0 ∷ 1 ∷ 0 ∷ 0 ∷ 0 ∷ 0 ∷ 0 ∷ 0 ∷ 0 ∷ 10 ∷ 1 ∷ 0 ∷ 0 ∷ 0 ∷ 0 ∷ 1 ∷ 9 ∷ 9 ∷ 9 ∷ 9 ∷ [])

parse_recv_buff_overruns_example : parse_recv_buff move swap_halves bad_frame 24 no_head ≡ none
unfolding endian_dwrd
parse_recv_buff_overruns_example =
    parse_recv_buff_overruns move swap_halves no_head 24 bad_frame (omega arith) (omega arith) refl
      (omega arith) (inl (omega arith))

is_recv_ok_iff_example : (is_recv_ok bad_frame 24 ≡ some (pos 0)) ↔ (
    (take 3 bad_frame ≡ magic) × (14 ≤ 24) × (length_field (take 4 (drop 10 bad_frame)) ≡ 24 - 14))
is_recv_ok_iff_example = is_recv_ok_iff bad_frame 24 (omega arith) (omega arith)

-- A memcpy that copies from the lowest address up destroys data longer than a head: the byte 1 that
-- stands at the front of 16 bytes comes out again behind the first fourteen.
forward_copy_corrupts :
    memcpy copy_forward 14 0 16 (1 ∷ replicate 13 0 ++ (2 ∷ 3 ∷ replicate 16 9))
    ≡ some (1 ∷ replicate 13 0 ++ (1 ∷ replicate 13 0 ++ (1 ∷ 0 ∷ 9 ∷ 9 ∷ [])))
unfolding memcpy copy_forward move slice store
forward_copy_corrupts = refl

abbrev two_blocks : List ℕ
two_blocks = replicate 32 b'a'
