-- ===== src/Receive/Tests.antt =====
-- A frame of sixteen bytes in three pieces, and its first byte alone.
use c_framework_to_server.Base.{ℕ, ◌≡◌, refl, some, List, [], ◌∷◌, ◌++◌, replicate, arith}
use c_framework_to_server.Basic.{endian_dwrd}
use c_framework_to_server.Frame.Accept.{magic}
use c_framework_to_server.Receive.{again, read_loop, request}
use c_framework_to_server.Receive.Whole.{IsFrame, joined, holding, read_loop-IsFrame}

abbrev empty_buffer : List ℕ
empty_buffer = replicate 32 0

-- A head with the length 2, and two bytes.
abbrev head_piece : List ℕ
head_piece = magic ++ (1 ∷ 0 ∷ [])

abbrev pieces : List (List ℕ)
pieces = (0 ∷ 0 ∷ 0 ∷ 0 ∷ 0 ∷ 0 ∷ 0 ∷ 0 ∷ []) ∷ (2 ∷ 104 ∷ 105 ∷ []) ∷ []

hello-IsFrame : IsFrame (head_piece ++ joined pieces)
unfolding endian_dwrd
hello-IsFrame = record { begins = refl; long = omega arith; short = omega arith; field = refl }

read_loop-IsFrame_example :
    read_loop (head_piece ∷ pieces) again (holding [] empty_buffer)
    ≡ some (request, holding (head_piece ++ joined pieces) empty_buffer)
read_loop-IsFrame_example =
    read_loop-IsFrame empty_buffer head_piece pieces again hello-IsFrame (omega arith) (omega arith)
      (omega arith)
