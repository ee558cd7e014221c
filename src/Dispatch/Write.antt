-- ===== src/Dispatch/Write.antt =====
-- The loop of socketWrite in cFrameworkToServer/utils/socket_server.c.
use c_framework_to_server.Base.{
  ℕ, zero, suc, ◌+◌, ◌-◌, ◌≤◌, ◌<◌, ◌≡◌, refl, sym, ap, ap₂, ◌∙◌, some, List, [], ◌∷◌, ◌++◌, map,
  length, take, drop, All, ◌==◌, if◌then◌else◌, Bool-cases, inl, inr, arith,
}
use c_framework_to_server.Base.Int.{pos}
use c_framework_to_server.Memory.{slice}
use c_framework_to_server.Memory.Laws.{drop-add}
use c_framework_to_server.Dispatch.{FdState, Written, closed, kept, next_request, socket_write}

abbrev pub sum : List ℕ → ℕ
sum [] = 0
sum (n ∷ ns) = n + sum ns

-- The state of the connection behind an answer that was sent whole.
abbrev pub after_answer : FdState → Written
after_answer fd = if fd.sh.keep_alive == 0 then closed else kept (next_request fd)

take-take : (n m : ℕ) (xs : List ℕ) → n ≤ m → take n (take m xs) ≡ take n xs
take-take zero m xs h = refl
take-take (suc n) zero xs h = absurd (omega arith)
take-take (suc n) (suc m) [] h = refl
take-take (suc n) (suc m) (x ∷ xs) h = ap (◌∷◌ x) (take-take n m xs (omega arith))

take-nil : (n : ℕ) → take {A = ℕ} n [] ≡ []
take-nil zero = refl
take-nil (suc n) = refl

suc_add : (n m : ℕ) → suc n + m ≡ suc (n + m)
suc_add n m = omega arith

take-add : (n m : ℕ) (xs : List ℕ) → take (n + m) xs ≡ take n xs ++ take m (drop n xs)
take-add zero m xs = ap (λ k. take k xs) (omega arith)
take-add (suc n) m [] = take-nil (suc n + m) ∙ sym (take-nil m)
take-add (suc n) m (x ∷ xs) = ap (λ k. take k (x ∷ xs)) (suc_add n m) ∙ ap (◌∷◌ x) (take-add n m xs)

slice_inside :
    (off n : ℕ) (buf : List ℕ)
    → off + n ≤ length buf
    → slice off n buf ≡ some (take n (drop off buf))
unfolding slice
slice_inside off n buf h = ground arith

socket_write-rest :
    (parts : List ℕ) (fd : FdState) (off left : ℕ)
    → fd.write_upto ≡ off
    → fd.n_written ≡ off + left
    → off + left ≤ length fd.buffer
    → 0 < left
    → All (λ n. 0 < n) parts
    → sum parts ≡ left
    → socket_write (map pos parts) fd ≡ some (take left (drop off fd.buffer), after_answer fd)
unfolding socket_write
socket_write-rest [] fd off left ho hn inside some_left good total = absurd (omega arith)
socket_write-rest (n ∷ parts) fd off left ho hn inside some_left good total =
    let here : slice fd.write_upto (fd.n_written - fd.write_upto) fd.buffer
        ≡ some (take left (drop off fd.buffer)) =
      ap (λ k. slice k (fd.n_written - k) fd.buffer) ho
      ∙ ap (λ k. slice off k fd.buffer) (let e : fd.n_written - off ≡ left = omega arith in e)
      ∙ slice_inside off left fd.buffer inside in
    elim (Bool-cases (fd.write_upto + n == fd.n_written)) [
      | inl last ↦
          let whole : n ≡ left = ground arith in
          let all : take n (take left (drop off fd.buffer)) ≡ take left (drop off fd.buffer) =
            ap (λ k. take k (take left (drop off fd.buffer))) whole
            ∙ take-take left left (drop off fd.buffer) (omega arith) in
          ground arith
      | inr more ↦
          let first : n + (left - n) ≡ left = omega arith in
          let rest =
            socket_write-rest parts (record fd { write_upto = fd.write_upto + n }) (off + n)
              (left - n) (omega arith) (omega arith) (omega arith) (ground arith) good.1
              (omega arith) in
          let split : take left (drop off fd.buffer)
              ≡ take n (take left (drop off fd.buffer))
                ++ take (left - n) (drop (off + n) fd.buffer) =
            ap (λ k. take k (drop off fd.buffer)) (sym first)
            ∙ take-add n (left - n) (drop off fd.buffer)
            ∙ ap₂ ◌++◌ (sym (take-take n left (drop off fd.buffer) (omega arith)))
                (ap (take (left - n)) (sym (drop-add off n fd.buffer))) in
          ground arith
    ]

-- An answer of n_written bytes that lies in the buffer leaves whole, in order and once, however send
-- cuts it: if the numbers that send returns are positive and add up to n_written, socketWrite stops
-- with the last of them, closes a connection that is not kept, and makes one that is kept ready for
-- the next request.
pub socket_write-whole :
    (parts : List ℕ) (fd : FdState)
    → fd.write_upto ≡ 0
    → fd.n_written ≤ length fd.buffer
    → 0 < fd.n_written
    → All (λ n. 0 < n) parts
    → sum parts ≡ fd.n_written
    → socket_write (map pos parts) fd ≡ some (take fd.n_written fd.buffer, after_answer fd)
socket_write-whole parts fd start inside some_left good total =
    socket_write-rest parts fd 0 fd.n_written start (omega arith) (omega arith) some_left good total
