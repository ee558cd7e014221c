-- ===== src/Dispatch/Answer.antt =====
-- A JSON request from its text to the frame of its answer, through json_handle of
-- cFrameworkToServer/utils/socket_server.c.
use c_framework_to_server.Base.{
  ℕ, zero, suc, ◌+◌, ◌-◌, ◌%◌, ◌^◌, ◌≤◌, ◌<◌, ◌≡◌, refl, ap, ap₂, ◌∙◌, Bool, true, false, some,
  List, [], ◌∷◌, ◌++◌, length, take, drop, replicate, All, arith, if◌then◌else◌, length-append,
  length-drop, length-replicate, take-append,
}
use c_framework_to_server.Base.Int.{pos, eqb_ℤ}
use c_framework_to_server.Base.CStrings.{c_str, c_str-append, IsChar}
use c_framework_to_server.Memory.{store, ◌>>=◌}
use mathlib.Core.List.{append_assoc}
use c_framework_to_server.Text.{codes}
use c_framework_to_server.Json.{Item}
use c_framework_to_server.Frame.{result, get_socket_send_buff, parse_recv_buff, is_recv_ok}
use c_framework_to_server.Frame.Heads.{answer_head}
use c_framework_to_server.Frame.Plain.{Copies, parse-send_plain}
use c_framework_to_server.Service.{Platform, World, max_line}
use c_framework_to_server.Service.Routes.{get_function_route, service_routes, Handler}
use c_framework_to_server.Dispatch.{FdState, Network, call, build_answer, json_answer, json_handle}

pub store_front :
    (bytes buf : List ℕ)
    → length bytes ≤ length buf
    → store 0 bytes buf ≡ some (bytes ++ drop (length bytes) buf)
unfolding store
store_front bytes buf h = ground arith

drop-replicate : (k n a : ℕ) → drop k (replicate n a) ≡ replicate (n - k) a
drop-replicate zero n a = ap (λ m. replicate m a) (omega arith)
drop-replicate (suc k) zero a = ap (λ m. replicate m a) (let e : 0 ≡ 0 - suc k = omega arith in e)
drop-replicate (suc k) (suc n) a =
    drop-replicate k n a
    ∙ ap (λ m. replicate m a) (let e : n - k ≡ suc n - suc k = omega arith in e)

-- A string that is copied into a cleared array is the string in it.
c_str-cleared :
    (text : List ℕ)
    → All IsChar text
    → length text < max_line
    → c_str (text ++ drop (length text) (replicate max_line 0)) ≡ text
c_str-cleared text good h =
    ap (λ b. c_str (text ++ b))
      (drop-replicate (length text) max_line 0
        ∙ ap (λ k. replicate k 0)
            (let e : max_line - length text ≡ suc (max_line - 1 - length text) = omega arith in e))
    ∙ c_str-append text (replicate (max_line - 1 - length text) 0) good

pub if_yes {ℓ} : {A : Type ℓ} {b : Bool} (x y : A) → b ≡ true → (if b then x else y) ≡ x
if_yes {b} x y h = ground arith

pub if_no {ℓ} : {A : Type ℓ} {b : Bool} (x y : A) → b ≡ false → (if b then x else y) ≡ y
if_no {b} x y h = ground arith

module _ (p : Platform) (net : Network p) where
  open net use {overlapped, aes_encrypt, aes_decrypt, print_item}

  -- The buffer holds a plain frame that isRecvOK accepts and parseRecvBuff reads as this text.
  abbrev pub IsAnswer : (text : List ℕ) → (request_type keep : ℕ) → FdState → Type 0
  IsAnswer text request_type keep fd =
      (fd.n_written ≡ 14 + length text)
      × (is_recv_ok fd.buffer fd.n_written ≡ some (pos 0))
      × ((got : List ℕ) × (parse_recv_buff overlapped aes_decrypt fd.buffer fd.n_written fd.sh
            ≡ some (
              result (pos (length text)) got,
              answer_head p.now request_type 0 keep (length text),
            ))
          × (take (length text) got ≡ text))

  -- A text at the front of the buffer becomes the answer.
  pub build_answer-plain :
      (text behind : List ℕ) (fd : FdState) (s : World p)
      → fd.buffer ≡ text ++ behind
      → fd.buffer_used ≡ length text
      → length fd.buffer ≡ max_line
      → fd.sh.enc_flag ≡ 0
      → 14 + length text ≤ max_line
      → Copies overlapped (length text)
      → (fd' : FdState) × (build_answer p net fd s ≡ some (fd', s))
        × (fd'.errcode ≡ fd.errcode)
        × IsAnswer text fd.sh.request_type fd.sh.keep_alive fd'
  build_answer-plain text behind fd s front used whole plain room copies =
      let n = length text in
      let (sent, got, run, ok, parsed, same) =
        parse-send_plain overlapped aes_encrypt aes_decrypt fd.sh p.now fd.sh.request_type
          fd.sh.keep_alive n max_line fd.buffer s.random copies room (omega arith) (omega arith) in
      let fd' : FdState = record fd { buffer = sent; buffer_used = 14 + n; n_written = 14 + n } in
      let run' =
        ap₂
          (λ used enc.
            get_socket_send_buff overlapped aes_encrypt p.now (some fd.buffer) used max_line
              fd.sh.request_type enc fd.sh.keep_alive s.random)
          used plain
        ∙ run in
      let size : (14 + n) % 2 ^ 32 ≡ 14 + n = omega arith in
      (
        fd',
        ground arith,
        refl,
        (refl, ok, (got, parsed, same ∙ ap (take n) front ∙ take-append text behind n refl)),
      )

  json_answer-clean :
      (fd : FdState) (s : World p)
      → fd.errcode ≡ pos 0
      → json_answer p net fd s ≡ build_answer p net fd s
  json_answer-clean fd s h = if_yes _ _ (ap (λ e. eqb_ℤ e (pos 0)) h)

  -- The state in which a route's handler is called.
  abbrev pub with_prm : (prm : List ℕ) → FdState → FdState
  with_prm prm fd = record fd {
    buffer = prm ++ drop (length prm) (replicate max_line 0);
    buffer_used = length prm;
  }

  -- json_handle for an object that names a route of the table and has parameters.
  pub json_handle-routed :
      (fd : FdState) (s : World p)
      → (json : p.c_json.Json) (item : Item) (route prm : List ℕ) (handler : Handler p)
      → p.c_json.parse (c_str fd.buffer) ≡ some json
      → p.c_json.get_object_item json (codes "route") ≡ some item
      → item.valuestring ≡ some route
      → print_item json (codes "prm") ≡ some prm
      → length prm ≤ max_line
      → get_function_route route (service_routes p) ≡ some handler
      → json_handle p net fd s
        ≡ (call p net handler (with_prm prm fd) s >>= (λ (fd2, s'). json_answer p net fd2 s'))
  unfolding json_handle
  json_handle-routed fd s json item route prm handler parsed named string has fits found =
      let stored : store 0 prm (replicate max_line 0)
          ≡ some (prm ++ drop (length prm) (replicate max_line 0)) =
        store_front prm (replicate max_line 0) fits in
      rw (json_handle, parsed) (rw (named, string, has, stored, found) refl)

  -- What a handler leaves that answers with a text.
  pub call-says :
      (prm text : List ℕ) (fd : FdState) (s s' : World p) (handler : Handler p)
      → All IsChar prm
      → length prm < max_line
      → handler (record s { buffer = prm; buffer_used = length prm })
        ≡ some (record s' { buffer = text; buffer_used = length text })
      → length text < max_line
      → (behind : List ℕ) × (call p net handler (with_prm prm fd) s
          ≡ some (
            record fd { buffer = text ++ behind; buffer_used = length text },
            record s' { buffer = text; buffer_used = length text },
          ))
        × (length (text ++ behind) ≡ max_line)
  call-says prm text fd s s' handler good short says room =
      let zeros : List ℕ = replicate max_line 0 in
      let old : List ℕ = prm ++ drop (length prm) zeros in
      let whole : length old ≡ max_line = omega (
        arith,
        length-append prm (drop (length prm) zeros),
        length-drop (length prm) zeros,
        length-replicate {A = ℕ} max_line 0,
      ) in
      let end : List ℕ = drop (length (text ++ 0 ∷ [])) old in
      let ended : length (text ++ 0 ∷ []) ≡ length text + 1 = length-append text (0 ∷ []) in
      let stored : store 0 (text ++ 0 ∷ []) old ≡ some (text ++ 0 ∷ end) =
        store_front (text ++ 0 ∷ []) old (omega arith) ∙ ap some (append_assoc text (0 ∷ []) end) in
      let run : handler (record s { buffer = c_str old; buffer_used = length prm })
          ≡ some (record s' { buffer = text; buffer_used = length text }) =
        ap (λ b. handler (record s { buffer = b; buffer_used = length prm }))
          (c_str-cleared prm good short)
        ∙ says in
      (
        0 ∷ end,
        rw (run, stored) refl,
        omega (arith, length-append text (0 ∷ end), length-drop (length (text ++ 0 ∷ [])) old),
      )

  -- A JSON request whose text is in the buffer: if its object names a route of the table and has
  -- parameters, and the route's handler, called with the text of these parameters, leaves a text, then
  -- json_handle comes to getSocketSendBuff on a buffer of MAX_LINE bytes that begins with that very
  -- text, its length, the flags of the request, and the caches, the session and the random numbers
  -- that the handler has left. The connection has met no error before, and both texts are shorter
  -- than the buffer.
  pub json_handle-build_answer :
      (fd : FdState) (s s' : World p)
      → (json : p.c_json.Json) (item : Item) (route prm text : List ℕ) (handler : Handler p)
      → fd.errcode ≡ pos 0
      → p.c_json.parse (c_str fd.buffer) ≡ some json
      → p.c_json.get_object_item json (codes "route") ≡ some item
      → item.valuestring ≡ some route
      → print_item json (codes "prm") ≡ some prm
      → All IsChar prm
      → length prm < max_line
      → get_function_route route (service_routes p) ≡ some handler
      → handler (record s { buffer = prm; buffer_used = length prm })
        ≡ some (record s' { buffer = text; buffer_used = length text })
      → length text < max_line
      → (behind : List ℕ) × (json_handle p net fd s
          ≡ build_answer p net
              (record fd { buffer = text ++ behind; buffer_used = length text })
              (record s' { buffer = text; buffer_used = length text }))
        × (length (text ++ behind) ≡ max_line)
  json_handle-build_answer fd s s' json item route prm text handler clean parsed named string has
        good short found says room =
      let routed =
        json_handle-routed fd s json item route prm handler parsed named string has (omega arith)
          found in
      let (behind, called, whole) = call-says prm text fd s s' handler good short says room in
      let fd2 : FdState = record fd { buffer = text ++ behind; buffer_used = length text } in
      let s2 : World p = record s' { buffer = text; buffer_used = length text } in
      (behind, routed ∙ rw called (json_answer-clean fd2 s2 clean), whole)

  -- What the client reads of that answer on a plain connection, where the text leaves room for the
  -- head and its move behind the head is defined: it has at most 14 bytes, or memcpy is a memmove.
  json_handle-IsAnswer :
      (fd : FdState) (s s' : World p)
      → (json : p.c_json.Json) (item : Item) (route prm text : List ℕ) (handler : Handler p)
      → fd.sh.enc_flag ≡ 0
      → fd.errcode ≡ pos 0
      → p.c_json.parse (c_str fd.buffer) ≡ some json
      → p.c_json.get_object_item json (codes "route") ≡ some item
      → item.valuestring ≡ some route
      → print_item json (codes "prm") ≡ some prm
      → All IsChar prm
      → length prm < max_line
      → get_function_route route (service_routes p) ≡ some handler
      → handler (record s { buffer = prm; buffer_used = length prm })
        ≡ some (record s' { buffer = text; buffer_used = length text })
      → 14 + length text ≤ max_line
      → Copies overlapped (length text)
      → (fd' : FdState) × (json_handle p net fd s
          ≡ some (fd', record s' { buffer = text; buffer_used = length text }))
        × IsAnswer text fd.sh.request_type fd.sh.keep_alive fd'
  json_handle-IsAnswer fd s s' json item route prm text handler plain clean parsed named string has
        good short found says room copies =
      let (behind, run, whole) =
        json_handle-build_answer fd s s' json item route prm text handler clean parsed named string
          has good short found says (omega arith) in
      let fd2 : FdState = record fd { buffer = text ++ behind; buffer_used = length text } in
      let s2 : World p = record s' { buffer = text; buffer_used = length text } in
      let (fd', built, same, answer) =
        build_answer-plain text behind fd2 s2 refl refl whole plain room copies in
      (fd', run ∙ built, answer)
