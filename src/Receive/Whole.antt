-- ===== src/Receive/Whole.antt =====
-- A frame that comes in pieces is put together.
use c_framework_to_server.Base.{
  ℕ, zero, suc, ◌+◌, ◌-◌, ◌^◌, ◌≤◌, ◌<◌, ◌≡◌, ◌≢◌, refl, ap, sym, subst, ◌∙◌, false, Option, some,
  List, [], ◌∷◌, ◌++◌, length, take, drop, get_or, All, arith, length-append, ltb, if◌then◌else◌,
  inl, inr, Bool-cases, length-drop,
}
use mathlib.Core.List.{append_assoc, append-nil}
use c_framework_to_server.Base.Int.{ℤ, pos, neg, eqb_ℤ}
use c_framework_to_server.Memory.{store, ◌>>=◌}
use c_framework_to_server.Memory.Laws.{store_next}
use c_framework_to_server.Frame.{is_recv_ok, length_field}
use c_framework_to_server.Frame.Accept.{
  magic, is_recv_ok_iff, is_recv_ok-incomplete, is_recv_ok-refused,
}
use c_framework_to_server.Receive.{Connection, NoData, Outcome, request, closed, read_loop}

-- A whole frame, by its head.
pub record IsFrame (f : List ℕ) : Type 0 where
  pub begins : take 3 f ≡ magic
  pub long : 14 ≤ length f
  pub short : length f < 2 ^ 32
  pub field : length_field (take 4 (drop 10 f)) ≡ length f - 14

take_within : (k : ℕ) (p r : List ℕ) → k ≤ length p → take k (p ++ r) ≡ take k p
take_within zero p r h = refl
take_within (suc k) [] r h = absurd (omega arith)
take_within (suc k) (x ∷ p) r h = ap (◌∷◌ x) (take_within k p r (omega arith))

drop_within : (k : ℕ) (p r : List ℕ) → k ≤ length p → drop k (p ++ r) ≡ drop k p ++ r
drop_within zero p r h = refl
drop_within (suc k) [] r h = absurd (omega arith)
drop_within (suc k) (x ∷ p) r h = drop_within k p r (omega arith)

field_within : (p r : List ℕ) → 14 ≤ length p → take 4 (drop 10 (p ++ r)) ≡ take 4 (drop 10 p)
field_within p r h =
    ap (take 4) (drop_within 10 p r (omega arith))
    ∙ take_within 4 (drop 10 p) r (omega (arith, length-drop 10 p))

-- isRecvOK on the whole frame, whatever follows it in the buffer.
whole_frame : (f r : List ℕ) → IsFrame f → is_recv_ok (f ++ r) (length f) ≡ some (pos 0)
whole_frame f r h =
    (is_recv_ok_iff (f ++ r) (length f) (omega (arith, h.long, length-append f r)) h.short).1 (
      take_within 3 f r (omega (arith, h.long)) ∙ h.begins,
      h.long,
      ap length_field (field_within f r h.long) ∙ h.field,
    )

ltb_long : (n : ℕ) → ltb n 14 ≡ false → 14 ≤ n
ltb_long n h = ground arith

-- isRecvOK on a part of a frame that has the magic word.
part_of_frame :
    (p q r : List ℕ)
    → IsFrame (p ++ q)
    → 3 ≤ length p
    → 0 < length q
    → 14 ≤ length (p ++ r)
    → is_recv_ok (p ++ r) (length p) ≡ some (neg 2)
part_of_frame p q r h three more room =
    is_recv_ok-incomplete (p ++ r) (length p) room (omega (arith, h.short, length-append p q))
      (take_within 3 p r three ∙ sym (take_within 3 p q three) ∙ h.begins)
      (elim (Bool-cases (ltb (length p) 14)) [
        | inl e ↦ inl (ground arith)
        | inr e ↦ inr (λ same.
            let whole =
              ap length_field
                (field_within p r (ground arith) ∙ sym (field_within p q (ground arith))) in
            let size : length p - 14 ≡ length (p ++ q) - 14 = sym same ∙ whole ∙ h.field in
            omega (arith, size, length-append p q, ltb_long (length p) e))
      ])

abbrev pub joined : List (List ℕ) → List ℕ
joined [] = []
joined (b ∷ bs) = b ++ joined bs

-- recv gives at least a byte.
abbrev pub NotEmpty : List ℕ → Type 0
NotEmpty b = 0 < length b

-- The state after a part of a frame has been put in the buffer `buf`.
abbrev pub holding : (part buf : List ℕ) → Connection
holding part buf = record { buffer = part ++ drop (length part) buf; buffer_used = length part }

-- What the loop does with the code of isRecvOK.
abbrev decide :
    (bs : List (List ℕ)) (no_data : NoData) (c : Connection) (ret : ℤ)
    → Option (Outcome × Connection)
decide bs no_data c ret =
    if eqb_ℤ ret (neg 1)
    then some (closed, c)
    else if eqb_ℤ ret (neg 2)
    then read_loop bs no_data c
    else some (request, c)

stored :
    (part b buf : List ℕ)
    → length (part ++ b) ≤ length buf
    → store (length part) b (part ++ drop (length part) buf)
      ≡ some ((part ++ b) ++ drop (length part + length b) buf)
stored part b buf room =
    store_next part b buf (length part) (length b) refl refl (omega (arith, length-append part b))
    ∙ ap some (sym (append_assoc part b (drop (length part + length b) buf)))

read_step :
    (part b buf : List ℕ) (bs : List (List ℕ)) (no_data : NoData)
    → length (part ++ b) ≤ length buf
    → read_loop (b ∷ bs) no_data (holding part buf) ≡ (
        is_recv_ok ((part ++ b) ++ drop (length (part ++ b)) buf) (length (part ++ b))
        >>= decide bs no_data (holding (part ++ b) buf))
unfolding read_loop
read_step part b buf bs no_data room = rw (stored part b buf room, length-append part b)

room_for_head :
    (part buf : List ℕ)
    → length part ≤ length buf
    → 14 ≤ length buf
    → 14 ≤ length (part ++ drop (length part) buf)
room_for_head part buf h k =
    omega (arith, length-append part (drop (length part) buf), length-drop (length part) buf)

-- The loop, when a part of the frame is in the buffer and the next pieces complete it.
read_rest :
    (f buf part b : List ℕ) (bs : List (List ℕ)) (no_data : NoData)
    → IsFrame f
    → length f ≤ length buf
    → f ≡ (part ++ b) ++ joined bs
    → 3 ≤ length (part ++ b)
    → All NotEmpty bs
    → read_loop (b ∷ bs) no_data (holding part buf) ≡ some (request, holding f buf)
read_rest f buf part b [] no_data h room e three some_bytes =
    let whole : f ≡ part ++ b = e ∙ append-nil (part ++ b) in
    subst
      (λ g.
        IsFrame g
        → length g ≤ length buf
        → read_loop (b ∷ []) no_data (holding part buf) ≡ some (request, holding g buf))
      (sym whole)
      (λ h' room'.
        read_step part b buf [] no_data room'
        ∙ rw (whole_frame (part ++ b) (drop (length (part ++ b)) buf) h'))
      h room
read_rest f buf part b (b' ∷ bs) no_data h room e three some_bytes =
    let size : length f ≡ length (part ++ b) + length (b' ++ joined bs) =
      ap length e ∙ length-append (part ++ b) (b' ++ joined bs) in
    let waits =
      part_of_frame (part ++ b) (b' ++ joined bs) (drop (length (part ++ b)) buf)
        (subst IsFrame e h) three (omega (arith, length-append b' (joined bs), some_bytes.0))
        (room_for_head (part ++ b) buf (omega arith) (omega (arith, h.long))) in
    read_step part b buf (b' ∷ bs) no_data (omega arith)
    ∙ rw (waits) (
        read_rest f buf (part ++ b) b' bs no_data h room
          (e ∙ sym (append_assoc (part ++ b) b' (joined bs)))
          (omega (arith, length-append (part ++ b) b')) some_bytes.1)

-- A frame that fits in the buffer reaches a thread whole, however it is cut into pieces, as long as
-- the first piece has the three bytes of the magic word and no piece is empty: from an empty buffer
-- the loop of aeSocketRead ends with a request, and the buffer holds the frame and its length.
pub read_loop-IsFrame :
    (buf b : List ℕ) (bs : List (List ℕ)) (no_data : NoData)
    → IsFrame (b ++ joined bs)
    → length (b ++ joined bs) ≤ length buf
    → 3 ≤ length b
    → All NotEmpty bs
    → read_loop (b ∷ bs) no_data (holding [] buf) ≡ some (request, holding (b ++ joined bs) buf)
read_loop-IsFrame buf b bs no_data h room three some_bytes =
    read_rest (b ++ joined bs) buf [] b bs no_data h room refl three some_bytes

third_taken : (xs : List ℕ) → get_or (take 3 xs) 2 0 ≡ get_or xs 2 0
third_taken [] = refl
third_taken (x ∷ []) = refl
third_taken (x ∷ y ∷ []) = refl
third_taken (x ∷ y ∷ z ∷ xs) = refl

third_after :
    (b buf : List ℕ) → length b < 3 → get_or (b ++ drop (length b) buf) 2 0 ≡ get_or buf 2 0
third_after [] buf h = refl
third_after (x ∷ []) [] h = refl
third_after (x ∷ []) (c ∷ buf) h = refl
third_after (x ∷ y ∷ []) [] h = refl
third_after (x ∷ y ∷ []) (c ∷ []) h = refl
third_after (x ∷ y ∷ []) (c ∷ d ∷ buf) h = refl
third_after (x ∷ y ∷ z ∷ b) buf h = absurd (omega arith)

-- A first piece of one or two bytes is refused: with anything but the third byte of the magic word in
-- the buffer behind it, as after a memset, the connection is closed.
pub read_loop-short_piece :
    (buf b : List ℕ) (bs : List (List ℕ)) (no_data : NoData)
    → 14 ≤ length buf
    → length b < 3
    → get_or buf 2 0 ≢ b's'
    → read_loop (b ∷ bs) no_data (holding [] buf) ≡ some (closed, holding b buf)
read_loop-short_piece buf b bs no_data room short stale =
    read_step [] b buf bs no_data (omega arith)
    ∙ rw (
        is_recv_ok-refused (b ++ drop (length b) buf) (length b)
          (omega (arith, length-append b (drop (length b) buf), length-drop (length b) buf))
          (λ e. stale (
            sym (third_after b buf short)
            ∙ sym (third_taken (b ++ drop (length b) buf))
            ∙ ap (λ m. get_or m 2 0) e)))
