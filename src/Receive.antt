-- ===== src/Receive.antt =====
-- How aeSocketRead of cFrameworkToServer/utils/socket_server.c gathers a request: recv puts what has
-- come behind what is there, and isRecvOK says whether it is a whole frame.
pub mod Whole
pub mod Tests
use c_framework_to_server.Base.{ℕ, ◌+◌, Option, none, some, List, [], ◌∷◌, length, if◌then◌else◌}
use c_framework_to_server.Base.Int.{ℤ, pos, neg, eqb_ℤ}
use c_framework_to_server.Memory.{store, ◌>>=◌}
use c_framework_to_server.Frame.{is_recv_ok}

-- `buffer` and `buffer_used` of fd_state, while readFlag is 0.
pub record Connection : Type 0 where
  pub buffer : List ℕ
  pub buffer_used : ℕ

-- The recv that gave no data: EAGAIN or EINTR, or an end or another error.
pub data NoData : Type 0 where
  again failed : NoData

-- What the loop comes to: a thread gets the request, the function waits for more data, or it closes
-- the connection.
pub data Outcome : Type 0 where
  request waiting closed : Outcome

abbrev pub after_no_data : NoData → Outcome
after_no_data again = waiting
after_no_data failed = closed

-- The loop, for the data that recv gives one after another and the recv behind them. `none`: recv has
-- put data behind the buffer, which its length argument forbids, or isRecvOK reads behind it.
unfoldable pub read_loop : List (List ℕ) → NoData → Connection → Option (Outcome × Connection)
read_loop [] no_data c = some (after_no_data no_data, c)
read_loop (bytes ∷ rest) no_data c = store c.buffer_used bytes c.buffer >>= (λ buf.
    let n = c.buffer_used + length bytes in
    let c' : Connection = record { buffer = buf; buffer_used = n } in
    let go_on = read_loop rest no_data c' in
    is_recv_ok buf n >>= (λ ret.
      if eqb_ℤ ret (neg 1)
      then some (closed, c')
      else if eqb_ℤ ret (neg 2)
      then go_on
      else some (request, c')))
