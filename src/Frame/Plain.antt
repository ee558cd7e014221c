-- ===== src/Frame/Plain.antt =====
-- A frame without encryption: getSocketSendBuff, isRecvOK and parseRecvBuff.
use c_framework_to_server.Base.{
  ℕ, ◌+◌, ◌^◌, ◌≤◌, ◌<◌, ◌≡◌, refl, sym, ap, ◌∙◌, ◌⊎◌, inl, inr, true, false, some, List, [], ◌++◌,
  length, take, drop, arith, ltb, length-append, length-take, length-drop, take-append-drop,
  take-append,
}
use c_framework_to_server.Base.Int.{pos, neg}
use mathlib.Core.Option
use c_framework_to_server.Memory.{store, move, memcpy, Overlapped, MoveLike}
use c_framework_to_server.Memory.Laws.{
  split, slice_parts, slice_prefix, store_parts, memcpy-move, memcpy_apart,
}
use c_framework_to_server.Random.{State}
use c_framework_to_server.Frame.{
  BlockCipher, SockHead, sock_head_bytes, length_bytes, length_field, send_head, result,
  length_fits, add_head, get_socket_send_buff, parse_recv_buff, is_recv_ok,
}
use c_framework_to_server.Frame.Heads.{answer_head, length_field-length_bytes}

-- Either memcpy is a memmove, or the data are too short for the two ranges to overlap.
abbrev pub Copies : Overlapped → ℕ → Type 0
Copies overlapped n = MoveLike overlapped ⊎ (n ≤ 14)

memcpy_behind_head :
    (overlapped : Overlapped) (n : ℕ) (buf : List ℕ)
    → Copies overlapped n
    → memcpy overlapped 14 0 n buf ≡ move 14 0 n buf
memcpy_behind_head overlapped n buf (inl like) = memcpy-move overlapped 14 0 n buf like
memcpy_behind_head overlapped n buf (inr short) =
    memcpy_apart overlapped 14 0 n buf (inr (omega arith))

memcpy_to_front :
    (overlapped : Overlapped) (n : ℕ) (buf : List ℕ)
    → Copies overlapped n
    → memcpy overlapped 0 14 n buf ≡ move 0 14 n buf
memcpy_to_front overlapped n buf (inl like) = memcpy-move overlapped 0 14 n buf like
memcpy_to_front overlapped n buf (inr short) =
    memcpy_apart overlapped 0 14 n buf (inl (omega arith))

-- The first n bytes move behind the place of the head.
move_behind_head :
    (n : ℕ) (buf : List ℕ)
    → 14 + n ≤ length buf
    → move 14 0 n buf ≡ some (take 14 buf ++ (take n buf ++ drop (14 + n) buf))
unfolding move
move_behind_head n buf h = rw (slice_prefix n buf (omega arith)) (
    ap (store 14 (take n buf)) (split 14 n buf)
    ∙ store_parts (take 14 buf) (take n (drop 14 buf)) (drop (14 + n) buf) 14 (take n buf)
        (omega (arith, length-take 14 buf))
        (omega (arith, length-take n buf, length-take n (drop 14 buf), length-drop 14 buf)))

-- The data behind a head move to the front.
pub move_to_front :
    (head data_bytes rest : List ℕ) (n : ℕ)
    → length head ≡ 14
    → n ≡ length data_bytes
    → let buf = head ++ (data_bytes ++ rest) in move 0 14 n buf ≡ some (data_bytes ++ drop n buf)
unfolding move
move_to_front head bytes rest n hl hn =
    let buf : List ℕ = head ++ (bytes ++ rest) in
    rw (slice_parts head bytes rest 14 n (sym hl) hn) (
      ap (store 0 bytes) (sym (take-append-drop n buf))
      ∙ store_parts [] (take n buf) (drop n buf) 0 bytes refl (
          omega (
            arith,
            length-take n buf,
            length-append head (bytes ++ rest),
            length-append bytes rest,
          )))

-- The frame in memory: the head, the data, and what the buffer held behind them.
abbrev pub framed : (now request_type enc keep : ℕ) (len : ℕ) (buf : List ℕ) → List ℕ
framed now request_type enc keep len buf =
    sock_head_bytes (answer_head now request_type enc keep len)
    ++ (take len buf ++ drop (14 + len) buf)

pub add_head_lem :
    (overlapped : Overlapped) (now request_type enc keep len : ℕ) (buf : List ℕ)
    → Copies overlapped len
    → 14 + len ≤ length buf
    → add_head overlapped (send_head now request_type enc keep) len buf
      ≡ some (result (pos (14 + len)) (framed now request_type enc keep len buf))
unfolding add_head
add_head_lem overlapped now request_type enc keep len buf copies h = rw (
  memcpy_behind_head overlapped len buf copies,
  move_behind_head len buf h,
  store_parts [] (take 14 buf) (take len buf ++ drop (14 + len) buf) 0
      (sock_head_bytes (answer_head now request_type enc keep len)) refl
      (omega (arith, length-take 14 buf)),
)

pub fits :
    (len : ℕ) → len < 2 ^ 31 → length_fits (14 + len) (length_field (length_bytes len)) ≡ true
fits len h = rw (length_field-length_bytes len (omega arith)) (ground arith)

pub not_short : (len : ℕ) → ltb (14 + len) 14 ≡ false
not_short len = ground arith

-- A whole frame is recognised as one.
pub is_recv_ok-framed :
    (now request_type enc keep len : ℕ) (data_bytes : List ℕ)
    → len < 2 ^ 31
    → is_recv_ok
        (sock_head_bytes (answer_head now request_type enc keep len) ++ data_bytes)
        (14 + len)
      ≡ some (pos 0)
unfolding is_recv_ok
is_recv_ok-framed now request_type enc keep len bytes h =
    let head = sock_head_bytes (answer_head now request_type enc keep len) in
    rw
      (
        slice_parts [] (take 3 head) (drop 3 head ++ bytes) 0 3 refl refl,
        not_short len,
        slice_parts (take 10 head) (length_bytes len) bytes 10 4 refl refl,
        fits len h,
      )
      refl

-- parseRecvBuff on a frame without encryption hands out the data and the head.
pub parse_recv_buff-framed :
    (overlapped : Overlapped) (aes_decrypt : BlockCipher) (s_h : SockHead)
    → (now request_type keep len : ℕ) (data_bytes rest : List ℕ) → Copies overlapped len
    → len ≡ length data_bytes
    → len < 2 ^ 31
    → let head = answer_head now request_type 0 keep len in
      let buf = sock_head_bytes head ++ (data_bytes ++ rest) in
      parse_recv_buff overlapped aes_decrypt buf (14 + len) s_h
      ≡ some (result (pos len) (data_bytes ++ drop len buf), head)
unfolding parse_recv_buff
parse_recv_buff-framed overlapped aes_decrypt s_h now request_type keep len bytes rest copies e h =
    let head = answer_head now request_type 0 keep len in
    let buf = sock_head_bytes head ++ (bytes ++ rest) in
    rw
      (
        not_short len,
        slice_parts [] (sock_head_bytes head) (bytes ++ rest) 0 14 refl refl,
        fits len h,
      )
      (ap (λ k. Option.map (λ b. (result (pos k) b, head)) (memcpy overlapped 0 14 k buf))
          (length_field-length_bytes len (omega arith))
        ∙ ap (Option.map (λ b. (result (pos len) b, head))) (
            memcpy_to_front overlapped len buf copies
            ∙ move_to_front (sock_head_bytes head) bytes rest len refl e))

-- Without encryption, for data of n bytes at the front of a buffer whose used size max_len takes
-- n + 14 bytes: getSocketSendBuff builds a frame of 14 + n bytes and draws no random number,
-- isRecvOK accepts it, and parseRecvBuff returns n, the head that was sent, and a buffer that begins
-- with the same n bytes. memcpy is a memmove, or n is at most 14, so that no ranges overlap.
pub parse-send_plain :
    (overlapped : Overlapped) (aes_encrypt aes_decrypt : BlockCipher) (s_h : SockHead)
    → (now request_type keep n max_len : ℕ) (buf : List ℕ) (s : State) → Copies overlapped n
    → 14 + n ≤ max_len
    → max_len ≤ length buf
    → length buf < 2 ^ 31
    → (sent got : List ℕ) × (get_socket_send_buff overlapped aes_encrypt now
          (some buf)
          n
          max_len
          request_type
          0
          keep
          s
        ≡ some (result (pos (14 + n)) sent, s))
      × (is_recv_ok sent (14 + n) ≡ some (pos 0))
      × (parse_recv_buff overlapped aes_decrypt sent (14 + n) s_h
          ≡ some (result (pos n) got, answer_head now request_type 0 keep n))
      × (take n got ≡ take n buf)
unfolding get_socket_send_buff
parse-send_plain overlapped aes_encrypt aes_decrypt s_h now request_type keep n max_len buf s copies
      room inside small =
    let room' : ltb max_len (n + 14) ≡ false = ground arith in
    let size : n ≡ length (take n buf) = omega (arith, length-take n buf) in
    let sent = framed now request_type 0 keep n buf in
    (
      sent,
      take n buf ++ drop n sent,
      rw (room', add_head_lem overlapped now request_type 0 keep n buf copies (omega arith)) refl,
      is_recv_ok-framed now request_type 0 keep n (take n buf ++ drop (14 + n) buf) (omega arith),
      parse_recv_buff-framed overlapped aes_decrypt s_h now request_type keep n (take n buf)
          (drop (14 + n) buf) copies size (omega arith),
      take-append (take n buf) (drop n sent) n size,
    )

-- Without room for the head the buffer stays as it was.
pub get_socket_send_buff-too_long :
    (overlapped : Overlapped) (aes_encrypt : BlockCipher)
    → (now n max_len request_type keep : ℕ) (buf : List ℕ) (s : State) → max_len < 14 + n
    → get_socket_send_buff overlapped aes_encrypt now (some buf) n max_len request_type 0 keep s
      ≡ some (result (neg 3) buf, s)
unfolding get_socket_send_buff
get_socket_send_buff-too_long overlapped aes_encrypt now n max_len request_type keep buf s h =
    ground arith
