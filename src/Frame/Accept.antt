-- ===== src/Frame/Accept.antt =====
-- Which frames isRecvOK and parseRecvBuff take, and which requests getSocketSendBuff refuses.
use c_framework_to_server.Base.{
  ℕ, ◌-◌, ◌^◌, ◌≤◌, ◌<◌, ◌≡◌, ◌≢◌, ◌⊎◌, ◌↔◌, Bool, true, ◌&&◌, some, List, [], ◌∷◌, length, take,
  drop, get_or, arith, ◌==◌, length-take,
}
use c_framework_to_server.Base.Int.{pos, neg}
use c_framework_to_server.Basic.{endian_dwrd}
use c_framework_to_server.Basic.Endian.{endian_dwrd-lt}
use c_framework_to_server.Memory.Laws.{slice_at, slice_prefix}
use c_framework_to_server.Frame.{read_u32, length_fits, length_field, is_recv_ok}

abbrev pub magic : List ℕ
magic = b's' ∷ b'o' ∷ b's' ∷ []

abbrev is_magic : List ℕ → Bool
is_magic m = (get_or m 0 0 == b's') && (get_or m 1 0 == b'o') && (get_or m 2 0 == b's')

is_magic_iff : (m : List ℕ) → length m ≡ 3 → (is_magic m ≡ true) ↔ (m ≡ magic)
is_magic_iff [] h = absurd (omega arith)
is_magic_iff (a ∷ []) h = absurd (omega arith)
is_magic_iff (a ∷ b ∷ []) h = absurd (omega arith)
is_magic_iff (a ∷ b ∷ c ∷ []) h = (ground arith, ground arith)
is_magic_iff (a ∷ b ∷ c ∷ d ∷ m) h = absurd (omega arith)

-- The size_t of 32 bits makes no difference to a frame that is long enough for a head.
pub length_fits_iff :
    (n d : ℕ)
    → 14 ≤ n
    → n < 2 ^ 32
    → (length_fits n (endian_dwrd d) ≡ true) ↔ (endian_dwrd d ≡ n - 14)
length_fits_iff n d h lt = (ground (arith, endian_dwrd-lt d), ground (arith, endian_dwrd-lt d))

-- isRecvOK accepts a buffer exactly when it begins with the magic word, at least a head has been
-- received, and the length in the head is what was received behind it.
pub is_recv_ok_iff :
    (buf : List ℕ) (n : ℕ)
    → 14 ≤ length buf
    → n < 2 ^ 32
    → (is_recv_ok buf n ≡ some (pos 0))
      ↔ ((take 3 buf ≡ magic) × (14 ≤ n) × (length_field (take 4 (drop 10 buf)) ≡ n - 14))
unfolding is_recv_ok
is_recv_ok_iff buf n room lt =
    rw (slice_prefix 3 buf (omega arith), slice_at 10 4 buf (omega arith))
      (
        ground (arith, is_magic_iff (take 3 buf) three, length_fits_iff n d),
        ground (arith, is_magic_iff (take 3 buf) three, length_fits_iff n d),
      )
  where
    three : length (take 3 buf) ≡ 3
    three = omega (arith, length-take 3 buf)

    d : ℕ
    d = read_u32 (take 4 (drop 10 buf))

-- isRecvOK waits for the rest of a request that begins with the magic word: while there is no whole
-- head, or the length in the head is not that of what has come behind it.
pub is_recv_ok-incomplete :
    (buf : List ℕ) (n : ℕ)
    → 14 ≤ length buf
    → n < 2 ^ 32
    → take 3 buf ≡ magic
    → (n < 14) ⊎ (length_field (take 4 (drop 10 buf)) ≢ n - 14)
    → is_recv_ok buf n ≡ some (neg 2)
unfolding is_recv_ok
is_recv_ok-incomplete buf n room lt begins short =
    rw (slice_prefix 3 buf (omega arith), slice_at 10 4 buf (omega arith), begins)
      (ground (arith, length_fits_iff n (read_u32 (take 4 (drop 10 buf)))))

-- isRecvOK refuses what does not begin with the magic word.
pub is_recv_ok-refused :
    (buf : List ℕ) (n : ℕ) → 3 ≤ length buf → take 3 buf ≢ magic → is_recv_ok buf n ≡ some (neg 1)
unfolding is_recv_ok
is_recv_ok-refused buf n room other =
    rw (slice_prefix 3 buf (omega arith)) (ground (arith, is_magic_iff (take 3 buf) three))
  where
    three : length (take 3 buf) ≡ 3
    three = omega (arith, length-take 3 buf)
