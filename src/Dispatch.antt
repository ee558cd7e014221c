-- ===== src/Dispatch.antt =====
-- From a received frame to the sent answer, in cFrameworkToServer/utils/socket_server.c:
-- handle_received_data parses the frame, json_handle and stream_handle call the route's handler and
-- build the frame of the answer, and socketWrite sends it. The request has a connection to the
-- database. `none` is undefined behaviour: a NULL pointer, or an access outside the buffer.
pub mod Answer
pub mod Faults
pub mod Write
pub mod Tests
use c_framework_to_server.Base.{
  ℕ, ◌+◌, ◌-◌, ◌*◌, ◌%◌, ◌^◌, Bool, true, false, Option, none, some, List, [], ◌∷◌, ◌++◌, length,
  take, replicate, get_or, ltb, ◌==◌, if◌then◌else◌,
}
use c_framework_to_server.Base.Int.{ℤ, pos, negsuc, eqb_ℤ}
use c_framework_to_server.Base.CStrings.{c_str}
use c_framework_to_server.Basic.{endian_word}
use c_framework_to_server.Memory.{slice, store, memcpy, Overlapped, ◌>>=◌}
use c_framework_to_server.Text.{codes, decimal}
use c_framework_to_server.Errors.{
  ger_err_msg, err_json_parse_fail, err_undefined_request_route, err_undefined_request_type,
}
use c_framework_to_server.Json.{CJson, Item}
use c_framework_to_server.Frame.{
  BlockCipher, SockHead, Result, get_socket_send_buff, parse_recv_buff,
}
use c_framework_to_server.Service.{Platform, World, error_json, max_line}
use c_framework_to_server.Service.Routes.{get_function_route, service_routes, Handler}

-- fd_state, without its socket and its connection to the database. The buffer is an array of
-- MAX_LINE chars; the sizes are size_t of 32 bits.
pub record FdState : Type 0 where
  pub buffer : List ℕ
  pub buffer_used : ℕ
  pub n_written : ℕ
  pub write_upto : ℕ
  pub read_flag : ℕ
  pub sh : SockHead
  pub errcode : ℤ

-- What the dispatch relies on beside the platform: memcpy on ranges that overlap, the block cipher,
-- and cJSON_Print of a member of an object.
pub record Network (p : Platform) : Type 0 where
  pub overlapped : Overlapped
  pub aes_encrypt : BlockCipher
  pub aes_decrypt : BlockCipher
  pub print_item : p.c_json.Json → List ℕ → Option (List ℕ)

-- An int in a size_t, and in a char.
abbrev pub to_size : ℤ → ℕ
to_size (pos n) = n % 2 ^ 32
to_size (negsuc n) = 2 ^ 32 - 1 - n % 2 ^ 32

abbrev pub to_char : ℤ → ℕ
to_char (pos n) = n % 256
to_char (negsuc n) = 255 - n % 256

-- `buffer[0] = errcode; buffer_used = n_written = 1`.
abbrev pub answer_errcode : ℤ → FdState → Option FdState
answer_errcode code fd =
    store 0 (to_char code ∷ []) fd.buffer
    >>= (λ buf. some (record fd { buffer = buf; buffer_used = 1; n_written = 1; errcode = code }))

-- undefined_handle.
abbrev pub undefined_handle : FdState → Option FdState
undefined_handle fd =
    answer_errcode err_undefined_request_type fd
    >>= (λ fd'. some (record fd' { sh = record fd'.sh { keep_alive = 0 } }))

module _ (p : Platform) (net : Network p) where
  open net use {overlapped, aes_encrypt, aes_decrypt, print_item}

  -- A call of a handler: it works on the string in the buffer and leaves its text there. What the
  -- array holds behind that text is not kept apart, since nothing reads it.
  abbrev pub call : Handler p → FdState → World p → Option (FdState × World p)
  call handler fd s = do
    s' ← handler (record s { buffer = c_str fd.buffer; buffer_used = fd.buffer_used })
    buf ← store 0 (s'.buffer ++ 0 ∷ []) fd.buffer
    some (record fd { buffer = buf; buffer_used = s'.buffer_used }, s')

  -- getSocketSendBuff with the flags of the request, as both handlers call it.
  abbrev pub build_answer : FdState → World p → Option (FdState × World p)
  build_answer fd s = do
    (r, random') ←
        get_socket_send_buff overlapped aes_encrypt p.now (some fd.buffer) fd.buffer_used max_line
          fd.sh.request_type fd.sh.enc_flag fd.sh.keep_alive s.random
    some (
      record fd { buffer = r.buffer; buffer_used = to_size r.code; n_written = to_size r.code },
      record s { random = random' },
    )

  -- json_handle from its label `end` on. With an error code strlen reads the error text after it was
  -- freed, which is undefined behaviour.
  abbrev pub json_answer : FdState → World p → Option (FdState × World p)
  json_answer fd s = if eqb_ℤ fd.errcode (pos 0) then build_answer fd s else none

  -- json_handle behind cJSON_Parse.
  abbrev pub json_route : p.c_json.Json → FdState → World p → Option (FdState × World p)
  json_route json fd s = do
    item ← p.c_json.get_object_item json (codes "route")
    route ← item.valuestring
    prm ← print_item json (codes "prm")
    buf ← store 0 prm (replicate max_line 0)
    let fd1 : FdState = record fd { buffer = buf; buffer_used = length prm }
    elim (get_function_route route (service_routes p)) [
      | none ↦ json_answer (record fd1 { errcode = err_undefined_request_route }) s
      | some handler ↦ call handler fd1 s >>= (λ (fd2, s'). json_answer fd2 s')
    ]

  -- json_handle.
  unfoldable pub json_handle : FdState → World p → Option (FdState × World p)
  json_handle fd s = elim (p.c_json.parse (c_str fd.buffer)) [
    | none ↦ json_answer (record fd { errcode = err_json_parse_fail }) s
    | some json ↦ json_route json fd s
  ]

  -- stream_handle from its label `end` on, without the commit.
  abbrev pub stream_answer : FdState → World p → Option (FdState × World p)
  stream_answer fd s =
      if eqb_ℤ fd.errcode (pos 0)
      then build_answer fd s
      else let err_string = ger_err_msg fd.errcode in
        store 0 err_string fd.buffer
        >>= (λ buf. build_answer (record fd { buffer = buf; buffer_used = length err_string }) s)

  -- "r_" and the number in the first two bytes.
  abbrev pub stream_route : List ℕ → List ℕ
  stream_route bytes =
      codes "r_" ++ decimal (pos (endian_word (get_or bytes 0 0 + get_or bytes 1 0 * 2 ^ 8)))

  -- stream_handle, without the commit. A request of one byte or none makes the size wrap.
  unfoldable pub stream_handle : FdState → World p → Option (FdState × World p)
  stream_handle fd s = if ltb fd.buffer_used 2 then none else do
    bytes ← slice 0 2 fd.buffer
    buf ← memcpy overlapped 0 2 (fd.buffer_used - 2) fd.buffer
    let fd1 : FdState = record fd { buffer = buf; buffer_used = fd.buffer_used - 2 }
    elim (get_function_route (stream_route bytes) (service_routes p)) [
      | none ↦ stream_answer (record fd1 { errcode = err_undefined_request_route }) s
      | some handler ↦ call handler fd1 s >>= (λ (fd2, s'). stream_answer fd2 s')
    ]

  -- get_handle_function(type)(fd_s).
  abbrev pub handle_request : FdState → World p → Option (FdState × World p)
  handle_request fd s =
      if fd.sh.request_type == 0
      then stream_handle fd s
      else if fd.sh.request_type == 1
      then json_handle fd s
      else undefined_handle fd >>= (λ fd'. some (fd', s))

  -- handle_received_data up to its label `end`.
  unfoldable pub handle_received_data : FdState → World p → Option (FdState × World p)
  unfolding json_handle stream_handle
  handle_received_data fd s =
      parse_recv_buff overlapped aes_decrypt fd.buffer fd.buffer_used fd.sh >>= (λ (r, head).
        let fd1 : FdState = record fd { buffer = r.buffer; sh = head } in
        elim r.code [
          | ℤ.negsuc k ↦ answer_errcode r.code fd1 >>= (λ fd'. some (fd', s))
          | ℤ.pos n ↦ handle_request (record fd1 { buffer_used = n }) s
        ])

-- What socketWrite comes to: the connection is closed, it waits for the next request, or it is still
-- in its loop behind the calls of send given.
pub data Written : Type 0 where
  closed : Written
  kept : FdState → Written
  sending : FdState → Written

-- The state for the next request of a connection that is kept.
abbrev pub next_request : FdState → FdState
next_request fd = record fd {
  buffer = replicate max_line 0;
  buffer_used = 0;
  n_written = 0;
  write_upto = 0;
  read_flag = 0;
}

-- socketWrite: the bytes that leave, for what send returns one time after another. `none`: send is
-- given a range that is not in the buffer.
unfoldable pub socket_write : List ℤ → FdState → Option (List ℕ × Written)
socket_write [] fd = some ([], sending fd)
socket_write (negsuc k ∷ rs) fd =
    slice fd.write_upto (fd.n_written - fd.write_upto) fd.buffer >>= (λ bytes. some ([], closed))
socket_write (pos n ∷ rs) fd =
    let rest = socket_write rs (record fd { write_upto = fd.write_upto + n }) in
    slice fd.write_upto (fd.n_written - fd.write_upto) fd.buffer >>= (λ bytes.
      if n == 0
      then some ([], closed)
      else if fd.write_upto + n == fd.n_written
      then some (take n bytes, if fd.sh.keep_alive == 0 then closed else kept (next_request fd))
      else rest >>= (λ (more, written). some (take n bytes ++ more, written)))
