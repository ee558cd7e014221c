-- ===== src/Dispatch/Faults.antt =====
-- Answers that cFrameworkToServer/utils/socket_server.c gets wrong: the error code of a connection,
-- which nothing resets, and an answer that does not fit the buffer.
use c_framework_to_server.Base.{
  ℕ, ◌+◌, ◌-◌, ◌^◌, ◌<◌, ◌≡◌, refl, ap, ◌∙◌, false, none, some, List, ◌∷◌, [], ◌++◌, length, take,
  Option, replicate, inl, inr, Option-cases, Bool-cases, ◌==◌, arith,
}
use c_framework_to_server.Base.Int.{ℤ, pos, negsuc, eqb_ℤ}
use c_framework_to_server.Base.CStrings.{c_str}
use c_framework_to_server.Memory.{slice, store, ◌>>=◌}
use c_framework_to_server.Text.{codes}
use c_framework_to_server.Frame.{SockHead, get_socket_send_buff}
use c_framework_to_server.Frame.Plain.{get_socket_send_buff-too_long}
use c_framework_to_server.Service.{Platform, World, max_line}
use c_framework_to_server.Service.Ensures.{
  Ensures, Ensures-bind, Ensures-any, Ensures-if, Ensures-some,
}
use c_framework_to_server.Service.Routes.{get_function_route, service_routes, Handler}
use c_framework_to_server.Dispatch.{
  FdState, Network, Written, closed, kept, sending, call, build_answer, json_answer, json_route,
  json_handle, socket_write,
}
use c_framework_to_server.Dispatch.Answer.{if_no}

-- send never gets a range that ends behind the buffer.
send_outside :
    (sent : ℤ) (later : List ℤ) (fd : FdState)
    → fd.write_upto ≡ 0
    → length fd.buffer < fd.n_written
    → socket_write (sent ∷ later) fd ≡ none
unfolding socket_write slice
send_outside (pos n) later fd start outside = ground arith
send_outside (negsuc n) later fd start outside = ground arith

bind-none {ℓ κ} :
    {A : Type ℓ} {B : Type κ} (o : Option A) (f : A → Option B)
    → ((x : A) → f x ≡ none)
    → (o >>= f) ≡ none
bind-none none f h = refl
bind-none (some x) f h = h x

-- A connection that is kept has the error code given.
abbrev KeepsCode : ℤ → List ℕ × Written → Type 0
KeepsCode code (bytes, closed) = Unit
KeepsCode code (bytes, kept fd) = fd.errcode ≡ code
KeepsCode code (bytes, sending fd) = Unit

-- The bytes of the rounds before make no difference.
KeepsCode-more :
    (code : ℤ) (first more : List ℕ) (w : Written)
    → KeepsCode code (more, w)
    → KeepsCode code (first, w)
KeepsCode-more code first more closed h = tt
KeepsCode-more code first more (kept fd) h = h
KeepsCode-more code first more (sending fd) h = tt

socket_write-KeepsCode :
    (sent : List ℤ) (fd : FdState) → Ensures (KeepsCode fd.errcode) (socket_write sent fd)
unfolding socket_write
socket_write-KeepsCode [] fd = tt
socket_write-KeepsCode (negsuc k ∷ sent) fd =
    Ensures-bind (λ b. Unit) _ (slice fd.write_upto (fd.n_written - fd.write_upto) fd.buffer) _
      (Ensures-any _) λ bytes u. tt
socket_write-KeepsCode (pos n ∷ sent) fd =
    let later = socket_write-KeepsCode sent (record fd { write_upto = fd.write_upto + n }) in
    Ensures-bind (λ b. Unit) (KeepsCode fd.errcode)
      (slice fd.write_upto (fd.n_written - fd.write_upto) fd.buffer) _ (Ensures-any _)
      λ bytes u. Ensures-if (KeepsCode fd.errcode) (n == 0) _ _ tt (
        Ensures-if (KeepsCode fd.errcode) (fd.write_upto + n == fd.n_written) _ _
          (elim (Bool-cases (fd.sh.keep_alive == 0)) [ inl e ↦ rw e tt | inr e ↦ rw e refl ])
          (Ensures-bind (KeepsCode fd.errcode) (KeepsCode fd.errcode) _ _ later
            λ (more, w) h. KeepsCode-more fd.errcode (take n bytes ++ more) more w h))

socket_write-errcode :
    (sent : List ℤ) (fd kept_fd : FdState) (bytes : List ℕ)
    → socket_write sent fd ≡ some (bytes, kept kept_fd)
    → kept_fd.errcode ≡ fd.errcode
socket_write-errcode sent fd kept_fd bytes =
    Ensures-some (KeepsCode fd.errcode) (socket_write sent fd) (bytes, kept kept_fd)
      (socket_write-KeepsCode sent fd)

module _ (p : Platform) (net : Network p) where
  open net use {overlapped, aes_encrypt, print_item}

  json_answer-failed :
      (fd : FdState) (s : World p)
      → eqb_ℤ fd.errcode (pos 0) ≡ false
      → json_answer p net fd s ≡ none
  json_answer-failed fd s failed = if_no _ _ failed

  call-failed :
      (handler : Handler p) (fd : FdState) (s : World p)
      → eqb_ℤ fd.errcode (pos 0) ≡ false
      → (call p net handler fd s >>= (λ (fd2, s'). json_answer p net fd2 s')) ≡ none
  call-failed handler fd s failed =
      let start : World p = record s { buffer = c_str fd.buffer; buffer_used = fd.buffer_used } in
      elim (Option-cases (handler start)) [
        | inl e ↦ rw e refl
        | inr (s', e) ↦ elim (Option-cases (store 0 (s'.buffer ++ 0 ∷ []) fd.buffer)) [
          | inl e' ↦ rw (e, e') refl
          | inr (buf, e') ↦
              rw (e, e')
                (json_answer-failed (record fd { buffer = buf; buffer_used = s'.buffer_used }) s'
                  failed)
        ]
      ]

  -- Whatever its parameters are.
  json_route-failed :
      (json : p.c_json.Json) (fd : FdState) (s : World p)
      → eqb_ℤ fd.errcode (pos 0) ≡ false
      → json_route p net json fd s ≡ none
  json_route-failed json fd s failed =
      bind-none (p.c_json.get_object_item json (codes "route")) _ λ item.
        bind-none item.valuestring _ λ route. bind-none (print_item json (codes "prm")) _ λ prm.
          bind-none (store 0 prm (replicate max_line 0)) _ λ buf.
            elim (Option-cases (get_function_route route (service_routes p))) [
              | inl e ↦ rw e refl
              | inr (handler, e) ↦ rw e (call-failed handler _ s failed)
            ]

  json_handle-failed :
      (fd : FdState) (s : World p)
      → eqb_ℤ fd.errcode (pos 0) ≡ false
      → json_handle p net fd s ≡ none
  unfolding json_handle
  json_handle-failed fd s failed = elim (Option-cases (p.c_json.parse (c_str fd.buffer))) [
    | inl e ↦ rw (json_handle, e) refl
    | inr (json, e) ↦ rw (json_handle, e) (json_route-failed json fd s failed)
  ]

  -- An error code outlives its request: when socketWrite has sent an answer and keeps the connection,
  -- the code is as it was, though the rest of the state is cleared, and if it is not 0, json_handle
  -- is undefined for whatever request comes next, a good one too, since it reads a freed text.
  pub json_handle-stale_error :
      (fd kept_fd : FdState) (sent : List ℤ) (bytes buffer : List ℕ) (used : ℕ) (head : SockHead)
      → (s : World p) → eqb_ℤ fd.errcode (pos 0) ≡ false
      → socket_write sent fd ≡ some (bytes, kept kept_fd)
      → (kept_fd.errcode ≡ fd.errcode)
        × (json_handle p net (record kept_fd { buffer = buffer; buffer_used = used; sh = head }) s
            ≡ none)
  json_handle-stale_error fd kept_fd sent bytes buffer used head s failed written =
      let same = socket_write-errcode sent fd kept_fd bytes written in
      (same, json_handle-failed _ s (ap (λ c. eqb_ℤ c (pos 0)) same ∙ failed))

  -- A plain answer that leaves no room for the head, which the handlers do not rule out, is not an
  -- error to the code: getSocketSendBuff returns -3, which the connection takes for a number of
  -- bytes, and socketWrite gives send a range of almost 2 ^ 32 bytes, far behind the buffer.
  pub build_answer-too_long :
      (fd : FdState) (s : World p) (sent : ℤ) (later : List ℤ)
      → fd.sh.enc_flag ≡ 0
      → length fd.buffer ≡ max_line
      → fd.write_upto ≡ 0
      → max_line < 14 + fd.buffer_used
      → (fd' : FdState) × (build_answer p net fd s ≡ some (fd', s))
        × (fd'.n_written ≡ 2 ^ 32 - 3)
        × (socket_write (sent ∷ later) fd' ≡ none)
  build_answer-too_long fd s sent later plain whole start long =
      let fd' : FdState = record fd { buffer_used = 2 ^ 32 - 3; n_written = 2 ^ 32 - 3 } in
      let refused =
        ap
          (λ enc.
            get_socket_send_buff overlapped aes_encrypt p.now (some fd.buffer) fd.buffer_used
              max_line fd.sh.request_type enc fd.sh.keep_alive s.random)
          plain
        ∙ get_socket_send_buff-too_long overlapped aes_encrypt p.now fd.buffer_used max_line
            fd.sh.request_type fd.sh.keep_alive fd.buffer s.random long in
      (fd', rw refused refl, refl, send_outside sent later fd' start (omega arith))
