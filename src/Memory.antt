-- ===== src/Memory.antt =====
-- A buffer as the list of its bytes, with the accesses of the C code. `none` is undefined behaviour:
-- an access outside the buffer.
pub mod Laws
use c_framework_to_server.Base.{
  ℕ, zero, suc, ◌+◌, ◌≤◌, ◌≡◌, Bool, ◌&&◌, Option, none, some, List, [], ◌∷◌, ◌++◌, length, take,
  drop, ltb, leb, if◌then◌else◌, set,
}

-- Option as the monad of runs that may meet undefined behaviour.
infixl 5 ◌>>=◌
abbrev pub ◌>>=◌ {ℓ κ} : {A : Type ℓ} {B : Type κ} → Option A → (A → Option B) → Option B
none >>= f = none
some a >>= f = f a

-- The n bytes from an offset on.
unfoldable pub slice : (off n : ℕ) → List ℕ → Option (List ℕ)
slice off n buf = if leb (off + n) (length buf) then some (take n (drop off buf)) else none

-- The bytes put at an offset.
unfoldable pub store : (off : ℕ) (bytes buf : List ℕ) → Option (List ℕ)
store off bytes buf =
    if leb (off + length bytes) (length buf)
    then some (take off buf ++ (bytes ++ drop (off + length bytes) buf))
    else none

-- A copy inside one buffer that reads all of the source before it writes: memmove.
unfoldable pub move : (dst src n : ℕ) → List ℕ → Option (List ℕ)
move dst src n buf = do bytes ← slice src n buf; store dst bytes buf

-- memcpy inside one buffer. Where the two ranges overlap the C standard leaves the result open:
-- `overlapped` is what the platform does there.
abbrev pub Overlapped : Type 0
Overlapped = (dst src n : ℕ) → List ℕ → Option (List ℕ)

unfoldable pub memcpy : Overlapped → (dst src n : ℕ) → List ℕ → Option (List ℕ)
memcpy overlapped dst src n buf =
    if ltb dst (src + n) && ltb src (dst + n) then overlapped dst src n buf else move dst src n buf

-- A platform whose memcpy is a memmove.
abbrev pub MoveLike : Overlapped → Type 0
MoveLike overlapped = (dst src n : ℕ) (buf : List ℕ) → overlapped dst src n buf ≡ move dst src n buf

-- A platform that copies byte by byte, from the lowest address up.
unfoldable pub copy_forward : Overlapped
copy_forward dst src zero buf = some buf
copy_forward dst src (suc n) buf = elim (move dst src 1 buf) [
  | none ↦ none
  | some buf' ↦ copy_forward (dst + 1) (src + 1) n buf'
]
