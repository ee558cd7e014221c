-- ===== src/Service.antt =====
-- What the request handlers of cFrameworkToServer/src/service/service_basic.c share: the state that
-- they work on, the token check and the reply. `none` is undefined behaviour.
pub mod Verify
pub mod Account
pub mod Sessions
pub mod Feed
pub mod Ensures
pub mod CacheInvariant
pub mod Routes
pub mod Reach
pub mod Handlers
pub mod Guards
pub mod Tests
use c_framework_to_server.Base.{
  ℕ, ◌+◌, ◌-◌, ◌*◌, ◌%◌, ◌^◌, Bool, Option, none, some, List, [], length, ltb, if◌then◌else◌,
}
use c_framework_to_server.Base.Int.{ℤ, pos, neg}
use c_framework_to_server.Base.CStrings.{c_str}
use c_framework_to_server.Basic.{hex_to_str}
use c_framework_to_server.Memory.{◌>>=◌}
use c_framework_to_server.Random.{State, srand_get_uuid}
use c_framework_to_server.Text.{strcpy}
use c_framework_to_server.Errors.{ger_err_msg, err_not_login_yet, err_token_out_of_date}
use c_framework_to_server.Sql.{Mysql}
use c_framework_to_server.Json.{CJson, make_error_json}
use c_framework_to_server.Cache.{Dict, Object, user, Caches, cache_token, cache_query, cache_delete}
use c_framework_to_server.User.{User, empty_user}
use c_framework_to_server.User.Convert.{user_parse_json}

-- The code that is not the program's own, the time and the setting of a run. `cbc` and `stack` are
-- those of srand_get_uuid. `now` is time(0), which stays the same while a handler runs.
pub record Platform : Type 1 where
  pub mysql : Mysql
  pub c_json : CJson
  pub dict : Dict
  pub cbc : List ℕ → List ℕ → List ℕ → List ℕ
  pub stack : List ℕ
  pub now : ℕ
  -- tokenFreshTime, an unsigned int
  pub token_fresh_time : ℕ

-- The caches, the connection of the request, the random numbers, and `buffer` and `buffer_used` of
-- fd_state, the buffer as the C string in it.
pub record Server (Session Table : Type 0) : Type 0 where
  pub caches : Caches Table
  pub session : Session
  pub random : State
  pub buffer : List ℕ
  pub buffer_used : ℕ

abbrev pub max_line : ℕ
max_line = 1024

-- A time_t in an int.
abbrev pub to_int : ℕ → ℤ
to_int t = if ltb (t % 2 ^ 32) (2 ^ 31) then pos (t % 2 ^ 32) else neg (2 ^ 32 - t % 2 ^ 32)

module _ (p : Platform) where
  abbrev pub World : Type 0
  World = Server (p.mysql.Session) (p.dict.Table)

  -- A handler up to its label `end`: the JSON text and the state.
  abbrev pub Run : Type 0
  Run = Option (List ℕ × World)

  -- From the label `end` on.
  abbrev pub finish : List ℕ × World → Option World
  finish (ret_char, s) =
      strcpy max_line ret_char
      >>= (λ text. some (record s { buffer = text; buffer_used = length ret_char }))

  -- makeErrorJson(code, gerErrMsg(code)).
  abbrev pub error_json : ℤ → List ℕ
  error_json code = make_error_json p.c_json code (ger_err_msg code)

  -- memset(&filter, 0, sizeof(User)); UserParseJson(state->buffer, &filter).
  abbrev pub parse_filter : World → Option User
  parse_filter s = user_parse_json p.c_json s.buffer empty_user

  -- cacheQuery for a pointer that is used as a User.
  abbrev pub as_user : Object → Option User
  as_user (user u) = some u
  as_user _ = none

  -- (tokenFreshTimeStamp + tokenFreshTime * 3600) < time(0); the sum is an unsigned int.
  abbrev pub out_of_date : User → Bool
  out_of_date u = ltb ((u.token_fresh_time_stamp + p.token_fresh_time * 3600) % 2 ^ 32) p.now

  abbrev pub drop_token : List ℕ → World → Option World
  drop_token token s =
      cache_delete p.dict cache_token token s.caches
      >>= (λ (ret, caches'). some (record s { caches = caches' }))

  -- The first steps of userStatus, userLogout, userModify and userDelete, and what follows them.
  unfoldable pub check_token : (token : List ℕ) (go_on : User → World → Run) → World → Run
  check_token token go_on s = cache_query p.dict cache_token token s.caches >>= (λ found.
      elim found [
        | none ↦ some (error_json err_not_login_yet, s)
        | some obj ↦ as_user obj >>= (λ ret_user.
            if out_of_date ret_user
            then drop_token token s >>= (λ s'. some (error_json err_token_out_of_date, s'))
            else go_on ret_user s)
      ])

  -- srand_get_uuid(uuid); HexToStr(token, uuid, 8).
  abbrev pub new_token : World → Option (List ℕ × World)
  new_token s =
      let (uuid, random') = srand_get_uuid p.cbc p.stack s.random in
      hex_to_str uuid 8 >>= (λ text. some (c_str text, record s { random = random' }))
