-- ===== src/Memory/Laws.antt =====
-- Accesses to a buffer that is known by its parts.
use c_framework_to_server.Base.{
  ℕ, zero, suc, ◌+◌, ◌≤◌, ◌≡◌, refl, sym, ap, ◌∙◌, none, some, List, [], ◌∷◌, ◌++◌, length, take,
  drop, ◌⊎◌, inl, inr, ◌<◌, Option-cases, arith, take-append, drop-append, length-append,
  length-drop, length-take, take-append-drop,
}
use mathlib.Core.List.{append_assoc}
use c_framework_to_server.Memory.{slice, store, move, memcpy, Overlapped, MoveLike}

pub drop-nil : (b : ℕ) → drop {A = ℕ} b [] ≡ []
drop-nil zero = refl
drop-nil (suc b) = refl

pub drop-add : (a b : ℕ) (xs : List ℕ) → drop (a + b) xs ≡ drop b (drop a xs)
drop-add zero b xs = ap (λ k. drop k xs) (omega arith)
drop-add (suc a) b [] = drop-nil (suc a + b) ∙ sym (drop-nil b)
drop-add (suc a) b (x ∷ xs) =
    ap (λ k. drop k (x ∷ xs)) (let e : suc a + b ≡ suc (a + b) = omega arith in e) ∙ drop-add a b xs

-- A buffer is what stands before a range, the range, and what follows it.
pub split :
    (off n : ℕ) (buf : List ℕ) → buf ≡ take off buf ++ (take n (drop off buf) ++ drop (off + n) buf)
split off n buf = sym (
    ap (λ r. take off buf ++ (take n (drop off buf) ++ r)) (drop-add off n buf)
    ∙ ap (◌++◌ (take off buf)) (take-append-drop n (drop off buf))
    ∙ take-append-drop off buf)

pub slice_prefix : (n : ℕ) (buf : List ℕ) → n ≤ length buf → slice 0 n buf ≡ some (take n buf)
unfolding slice
slice_prefix n buf h = ground arith

module _ (xs ys zs : List ℕ) where
  pub slice_parts :
      (off n : ℕ) → off ≡ length xs → n ≡ length ys → slice off n (xs ++ (ys ++ zs)) ≡ some ys
  unfolding slice
  slice_parts off n ho hn = ground (
    arith,
    drop-append xs (ys ++ zs) off ho,
    take-append ys zs n hn,
    length-append xs (ys ++ zs),
    length-append ys zs,
  )

  pub store_parts :
      (off : ℕ) (bytes : List ℕ)
      → off ≡ length xs
      → length bytes ≡ length ys
      → store off bytes (xs ++ (ys ++ zs)) ≡ some (xs ++ (bytes ++ zs))
  unfolding store
  store_parts off bytes ho hb = ground (
    arith,
    take-append xs (ys ++ zs) off ho,
    drop-append (xs ++ ys) zs (off + length bytes),
    length-append xs (ys ++ zs),
    length-append ys zs,
    length-append xs ys,
    append_assoc xs ys zs,
  )

-- On a platform whose memcpy is a memmove, every copy is one.
pub memcpy-move :
    (overlapped : Overlapped) (dst src n : ℕ) (buf : List ℕ)
    → MoveLike overlapped
    → memcpy overlapped dst src n buf ≡ move dst src n buf
unfolding memcpy
memcpy-move overlapped dst src n buf like = ground (arith, like dst src n buf)

-- Where the ranges do not overlap, the platform does not matter.
pub memcpy_apart :
    (overlapped : Overlapped) (dst src n : ℕ) (buf : List ℕ)
    → dst + n ≤ src ⊎ src + n ≤ dst
    → memcpy overlapped dst src n buf ≡ move dst src n buf
unfolding memcpy
memcpy_apart overlapped dst src n buf apart = ground arith

-- A write at the front of a buffer.
pub store_prefix :
    (bytes buf : List ℕ) (n : ℕ)
    → length bytes ≡ n
    → n ≤ length buf
    → store 0 bytes buf ≡ some (bytes ++ drop n buf)
store_prefix bytes buf n hn h =
    ap (store 0 bytes) (sym (take-append-drop n buf))
    ∙ store_parts [] (take n buf) (drop n buf) 0 bytes refl (omega (arith, length-take n buf))

-- A write that follows one at the front.
pub store_next :
    (xs bytes buf : List ℕ) (off n : ℕ)
    → off ≡ length xs
    → length bytes ≡ n
    → off + n ≤ length buf
    → store off bytes (xs ++ drop off buf) ≡ some (xs ++ (bytes ++ drop (off + n) buf))
store_next xs bytes buf off n ho hn h =
    ap (λ r. store off bytes (xs ++ r))
      (sym (take-append-drop n (drop off buf))
        ∙ ap (◌++◌ (take n (drop off buf))) (sym (drop-add off n buf)))
    ∙ store_parts xs (take n (drop off buf)) (drop (off + n) buf) off bytes ho
        (omega (arith, length-take n (drop off buf), length-drop off buf))

pub slice-length :
    (off n : ℕ) (buf bytes : List ℕ) → slice off n buf ≡ some bytes → length bytes ≡ n
unfolding slice
slice-length off n buf bytes e = ground (arith, length-take n (drop off buf), length-drop off buf)

-- A read or a write outside the buffer.
pub slice_outside : (off n : ℕ) (buf : List ℕ) → length buf < off + n → slice off n buf ≡ none
unfolding slice
slice_outside off n buf h = ground arith

store_outside :
    (off : ℕ) (bytes buf : List ℕ) → length buf < off + length bytes → store off bytes buf ≡ none
unfolding store
store_outside off bytes buf h = ground arith

pub move_outside : (dst src n : ℕ) (buf : List ℕ) → length buf < dst + n → move dst src n buf ≡ none
unfolding move
move_outside dst src n buf h = elim (Option-cases (slice src n buf)) [
  | inl e ↦ rw (e, move)
  | inr (bytes, e) ↦
      rw (e, move) (store_outside dst bytes buf (omega (arith, slice-length src n buf bytes e)))
]

pub slice_at :
    (off n : ℕ) (buf : List ℕ)
    → off + n ≤ length buf
    → slice off n buf ≡ some (take n (drop off buf))
unfolding slice
slice_at off n buf h = ground arith
