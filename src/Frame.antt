-- ===== src/Frame.antt =====
-- The wire format of cFrameworkToServer/utils/socket_server.c and
-- cFrameworkToServer/utils/en_de_crypt.c: a frame is a 14-byte sock_head and its data, which an
-- encrypted frame begins with a 10-byte enc_head. Lengths and the sizes of buffers are natural
-- numbers: the callers pass an int or size_t that is not negative. A size_t has 32 bits, as in the
-- Win32 build of the project file.
pub mod Heads
pub mod Cipher
pub mod Plain
pub mod Encrypted
pub mod Exchange
pub mod Accept
pub mod Overrun
pub mod Tests
use c_framework_to_server.Base.{
  ℕ, zero, suc, ◌+◌, ◌-◌, ◌*◌, ◌/◌, ◌%◌, ◌^◌, ◌≡◌, Bool, not, ◌&&◌, ◌||◌, Option, none, some, List,
  [], ◌∷◌, ◌++◌, length, take, drop, replicate, get_or, ltb, leb, ◌==◌, if◌then◌else◌,
}
use mathlib.Core.Option
use c_framework_to_server.Base.Int.{ℤ, pos, neg}
use c_framework_to_server.Basic.{endian_dwrd}
use c_framework_to_server.Memory.{slice, store, memcpy, Overlapped, ◌>>=◌}
use c_framework_to_server.Random.{State, int32_bytes, srand_get_int32}

-- sock_head: fourteen unsigned chars in a row. `time` and `length` are their four bytes.
pub record SockHead : Type 0 where
  pub magic_word : List ℕ
  pub request_type : ℕ
  pub keep_alive : ℕ
  pub enc_flag : ℕ
  pub time : List ℕ
  pub length : List ℕ

-- enc_head: ten unsigned chars in a row.
pub record EncHead : Type 0 where
  pub enc_type : ℕ
  pub length : List ℕ
  pub padding : ℕ
  pub random : List ℕ

abbrev pub sock_head_size : ℕ
sock_head_size = 14

abbrev pub enc_head_size : ℕ
enc_head_size = 10

-- The heads in memory.
abbrev pub sock_head_bytes : SockHead → List ℕ
sock_head_bytes h =
    h.magic_word ++ (h.request_type ∷ h.keep_alive ∷ h.enc_flag ∷ (h.time ++ h.length))

abbrev pub enc_head_bytes : EncHead → List ℕ
enc_head_bytes h = h.enc_type ∷ (h.length ++ h.padding ∷ h.random)

abbrev pub sock_head_of : List ℕ → SockHead
sock_head_of bs = record {
  magic_word = take 3 bs;
  request_type = get_or bs 3 0;
  keep_alive = get_or bs 4 0;
  enc_flag = get_or bs 5 0;
  time = take 4 (drop 6 bs);
  length = take 4 (drop 10 bs);
}

abbrev pub enc_head_of : List ℕ → EncHead
enc_head_of bs = record {
  enc_type = get_or bs 0 0;
  length = take 4 (drop 1 bs);
  padding = get_or bs 5 0;
  random = take 4 (drop 6 bs);
}

-- `*(unsigned int *)bytes` on a little-endian machine.
abbrev pub read_u32 : List ℕ → ℕ
read_u32 bs =
    get_or bs 0 0 + get_or bs 1 0 * 2 ^ 8 + get_or bs 2 0 * 2 ^ 16 + get_or bs 3 0 * 2 ^ 24

-- `x = ENDIAN_DWRD(x); memcpy(field, &x, 4)`, and back.
abbrev pub length_bytes : ℕ → List ℕ
length_bytes n = int32_bytes (endian_dwrd n)

abbrev pub length_field : List ℕ → ℕ
length_field bs = endian_dwrd (read_u32 bs)

-- What a function that works on a buffer leaves: its code and the buffer, [] for a NULL pointer.
pub record Result : Type 0 where
  pub code : ℤ
  pub buffer : List ℕ

abbrev pub result : ℤ → List ℕ → Result
result code buffer = record { code = code; buffer = buffer }

-- The block cipher of OpenSSL: a key of 16 bytes and a block of 16 bytes give a block.
abbrev pub BlockCipher : Type 0
BlockCipher = List ℕ → List ℕ → List ℕ

-- The loop of DbsAesEncrypt and DbsAesDecrypt: `count` blocks, from the front of the buffer on.
pub crypt_blocks : (List ℕ → List ℕ) → (count : ℕ) → List ℕ → Option (List ℕ)
crypt_blocks f zero buf = some buf
crypt_blocks f (suc n) buf = elim (slice 0 16 buf) [
  | none ↦ none
  | some block ↦ elim (crypt_blocks f n (drop 16 buf)) [
    | none ↦ none
    | some rest ↦ some (f block ++ rest)
  ]
]

abbrev pub block_count : ℕ → ℕ
block_count len = if len % 16 == 0 then len / 16 else len / 16 + 1

pub dbs_aes_encrypt : BlockCipher → (key data_input_output : List ℕ) (len : ℕ) → Option (List ℕ)
unfolding crypt_blocks
dbs_aes_encrypt aes_encrypt key buf len = crypt_blocks (aes_encrypt key) (block_count len) buf

pub dbs_aes_decrypt : BlockCipher → (key data_input_output : List ℕ) (len : ℕ) → Option (List ℕ)
unfolding crypt_blocks
dbs_aes_decrypt aes_decrypt key buf len = crypt_blocks (aes_decrypt key) (block_count len) buf

-- ENC_TYPE_AES.
abbrev pub enc_type_aes : ℕ
enc_type_aes = 1

-- The last lines of encryptData, for a padding and a random number. (malloc is taken to succeed.)
pub encrypt_padded : BlockCipher → (n padding random encrypt_type : ℕ) → List ℕ → Option Result
unfolding dbs_aes_encrypt
encrypt_padded aes_encrypt n padding random encrypt_type buf = do
  let total = n + padding
  let head : EncHead = record {
    enc_type = encrypt_type;
    length = length_bytes total;
    padding = padding;
    random = int32_bytes random;
  }
  input ← slice 0 n buf
  temp ←
      dbs_aes_encrypt aes_encrypt (int32_bytes random ++ replicate 12 0)
        (input ++ replicate padding 0) total
  buf ← store 0 (enc_head_bytes head) buf
  buf ← store enc_head_size temp buf
  some (result (pos (enc_head_size + total)) buf)

-- encryptData, which works at the front of its buffer.
pub encrypt_data :
    BlockCipher
    → (data_input : Option (List ℕ)) (input_len max_len encrypt_type : ℕ) → State
    → Option (Result × State)
unfolding encrypt_padded
encrypt_data aes_encrypt none n max_len encrypt_type s = some (result (neg 2) [], s)
encrypt_data aes_encrypt (some buf) n max_len encrypt_type s =
    let padding = 16 - n % 16 in
    let (random, t) = srand_get_int32 s in
    if ltb max_len (padding + n + enc_head_size)
    then some (result (neg 1) buf, s)
    else if encrypt_type == enc_type_aes
    then Option.map (λ r. (r, t)) (encrypt_padded aes_encrypt n padding random encrypt_type buf)
    else some (result (neg 3) buf, s)

-- The last lines of decryptData, for the fields of the head. A length from 2 ^ 31 on is a negative
-- int, which malloc and memcpy take for a huge one; so is the size of the last copy where the
-- padding exceeds the length.
pub decrypt_body : BlockCipher → (total padding : ℕ) (random : List ℕ) → List ℕ → Option Result
unfolding dbs_aes_decrypt
decrypt_body aes_decrypt total padding random buf =
    if leb (2 ^ 31) total || ltb total padding then none else do
      temp ← slice enc_head_size total buf
      plain ← dbs_aes_decrypt aes_decrypt (random ++ replicate 12 0) temp total
      buf ← store 0 (take (total - padding) plain) buf
      some (result (pos (total - padding)) buf)

-- decryptData.
pub decrypt_data : BlockCipher → (data_input : Option (List ℕ)) (encrypt_type : ℕ) → Option Result
unfolding decrypt_body
decrypt_data aes_decrypt none encrypt_type = some (result (neg 2) [])
decrypt_data aes_decrypt (some buf) encrypt_type =
    if encrypt_type == enc_type_aes
    then slice 0 enc_head_size buf >>= (λ bytes.
      let head = enc_head_of bytes in
      decrypt_body aes_decrypt (length_field head.length) head.padding head.random buf)
    else some (result (neg 3) buf)

-- The last lines of getSocketSendBuff: the data move behind the head.
pub add_head : Overlapped → SockHead → (len : ℕ) → List ℕ → Option Result
add_head overlapped head len buf = do
  buf ← memcpy overlapped sock_head_size 0 len buf
  buf ← store 0 (sock_head_bytes (record head { length = length_bytes len })) buf
  some (result (pos (sock_head_size + len)) buf)

-- A negative code of encryptData is returned as it is.
pub add_head_after : Overlapped → SockHead → Result × State → Option (Result × State)
unfolding add_head
add_head_after overlapped head (r, t) = elim r.code [
  | ℤ.negsuc k ↦ some (r, t)
  | ℤ.pos len ↦ Option.map (λ r'. (r', t)) (add_head overlapped head len r.buffer)
]

-- The head of an answer, before its length is known.
abbrev pub send_head : (now request_type enc keep : ℕ) → SockHead
send_head now request_type enc keep = record {
  magic_word = b's' ∷ b'o' ∷ b's' ∷ [];
  request_type = request_type;
  keep_alive = keep;
  enc_flag = enc;
  time = length_bytes now;
  length = replicate 4 0;
}

-- getSocketSendBuff at the time `now`.
pub get_socket_send_buff :
    Overlapped
    → BlockCipher
    → (now : ℕ) (data_input : Option (List ℕ))
      (input_len max_len request_type encrypt_type keep_alive_flag : ℕ)
    → State
    → Option (Result × State)
unfolding add_head add_head_after
get_socket_send_buff overlapped aes_encrypt now none n max_len request_type enc keep s =
    some (result (neg 5) [], s)
get_socket_send_buff overlapped aes_encrypt now (some buf) n max_len request_type enc keep s =
    let head = send_head now request_type enc keep in
    if enc == 0
    then if ltb max_len (n + sock_head_size)
      then some (result (neg 3) buf, s)
      else Option.map (λ r. (r, s)) (add_head overlapped head n buf)
    else if ltb max_len (n + sock_head_size + enc_head_size)
    then some (result (neg 4) buf, s)
    else encrypt_data aes_encrypt (some buf) n max_len enc s >>= add_head_after overlapped head

-- `inputLen != sizeof(sock_head) + length`, in a size_t.
abbrev pub length_fits : (input_len length : ℕ) → Bool
length_fits n len = n == (sock_head_size + len) % 2 ^ 32

-- The last lines of parseRecvBuff, after decryptData has worked behind the head.
pub remove_head_after :
    Overlapped → SockHead → (front : List ℕ) → Result → Option (Result × SockHead)
remove_head_after overlapped head front r =
    let buf = front ++ r.buffer in
    elim r.code [
      | ℤ.negsuc k ↦ some (result r.code buf, head)
      | ℤ.pos len ↦
          Option.map (λ buf'. (result r.code buf', head))
            (memcpy overlapped 0 sock_head_size len buf)
    ]

-- parseRecvBuff behind a head.
pub parse_body :
    Overlapped → BlockCipher → SockHead → List ℕ → (input_len : ℕ) → Option (Result × SockHead)
unfolding remove_head_after
parse_body overlapped aes_decrypt head buf n =
    let len = length_field head.length in
    if length_fits n len
    then if head.enc_flag == 0
      then Option.map (λ buf'. (result (pos len) buf', head))
          (memcpy overlapped 0 sock_head_size len buf)
      else decrypt_data aes_decrypt (some (drop sock_head_size buf)) enc_type_aes
        >>= remove_head_after overlapped head (take sock_head_size buf)
    else some (result (neg 6) buf, head)

-- parseRecvBuff: the code, the buffer, and the head that it leaves in *s_h.
pub parse_recv_buff :
    Overlapped
    → BlockCipher
    → (data_input : List ℕ) (input_len : ℕ) → SockHead
    → Option (Result × SockHead)
unfolding parse_body
parse_recv_buff overlapped aes_decrypt buf n s_h =
    if ltb n sock_head_size
    then some (result (neg 6) buf, s_h)
    else slice 0 sock_head_size buf
      >>= (λ bytes. parse_body overlapped aes_decrypt (sock_head_of bytes) buf n)

-- isRecvOK.
pub is_recv_ok : (data_input : List ℕ) (input_len : ℕ) → Option ℤ
is_recv_ok buf n = slice 0 3 buf >>= (λ magic.
    if (get_or magic 0 0 == b's') && (get_or magic 1 0 == b'o') && (get_or magic 2 0 == b's')
    then if ltb n sock_head_size
      then some (neg 2)
      else slice 10 4 buf
        >>= (λ bytes. some (if length_fits n (length_field bytes) then pos 0 else neg 2))
    else some (neg 1))
