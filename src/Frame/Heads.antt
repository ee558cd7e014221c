-- ===== src/Frame/Heads.antt =====
-- The heads of a frame in memory and back.
use c_framework_to_server.Base.{ℕ, ◌^◌, ◌<◌, ◌≡◌, refl, ap, ◌∙◌, length, arith}
use c_framework_to_server.Basic.{endian_dwrd}
use c_framework_to_server.Basic.Endian.{endian_dwrd_involutive}
use c_framework_to_server.Random.{int32_bytes}
use c_framework_to_server.Frame.{
  read_u32, SockHead, sock_head_bytes, sock_head_of, length_bytes, length_field, send_head,
}

read_u32-int32_bytes : (n : ℕ) → n < 2 ^ 32 → read_u32 (int32_bytes n) ≡ n
read_u32-int32_bytes n h = omega arith

-- A length survives the four bytes of a head.
pub length_field-length_bytes : (n : ℕ) → n < 2 ^ 32 → length_field (length_bytes n) ≡ n
length_field-length_bytes n h =
    let (back, small, _) = endian_dwrd_involutive n h in
    ap endian_dwrd (read_u32-int32_bytes (endian_dwrd n) small) ∙ back

-- The head of an answer, once its length is known.
abbrev pub answer_head : (now request_type enc keep len : ℕ) → SockHead
answer_head now request_type enc keep len = record (send_head now request_type enc keep) {
  length = length_bytes len;
}

pub sock_head_of-bytes :
    (now request_type enc keep len : ℕ)
    → sock_head_of (sock_head_bytes (answer_head now request_type enc keep len))
      ≡ answer_head now request_type enc keep len
sock_head_of-bytes now request_type enc keep len = refl

pub length-sock_head_bytes :
    (now request_type enc keep len : ℕ)
    → length (sock_head_bytes (answer_head now request_type enc keep len)) ≡ 14
length-sock_head_bytes now request_type enc keep len = refl
