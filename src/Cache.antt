-- ===== src/Cache.antt =====
-- The caches of cFrameworkToServer/src/service/cache.c over the hash table of
-- cFrameworkToServer/utils/basic_struct/dict.c, which is Redis's and a parameter here. The spin
-- locks have no effect on one request at a time and are left out. `none` is undefined behaviour.
pub mod Laws
use c_framework_to_server.Base.{ℕ, Option, none, some, List, ◌==◌, if◌then◌else◌}
use c_framework_to_server.Base.Int.{ℤ, pos}
use c_framework_to_server.Errors.{err_undefined_cache}
use c_framework_to_server.Memory.{◌>>=◌}
use c_framework_to_server.User.{User}
use c_framework_to_server.Notice.{Notice}
use c_framework_to_server.AppVer.{AppVer}

-- MsgCode of message_gateway.h. Its times are ints: those of time(0), which has not left the range of
-- an int, and a constant of six minutes.
pub record MsgCode : Type 0 where
  pub code : List ℕ
  pub fresh_time : ℕ
  pub time_stamp : ℕ

-- What the void pointers of the caches point to.
pub data Object : Type 0 where
  user : User → Object
  msg_code : MsgCode → Object
  notice : Notice → Object
  app_ver : AppVer → Object

-- The table of dict.c from strings to the objects behind its pointers. `dict_assign` is a write
-- through the pointer that `dict_fetch_value` has returned.
pub record Dict : Type 1 where
  pub Table : Type 0
  pub dict_create : Table
  pub dict_add : Table → List ℕ → Object → ℤ × Table
  pub dict_replace : Table → List ℕ → Object → ℤ × Table
  pub dict_delete : Table → List ℕ → ℤ × Table
  pub dict_fetch_value : Table → List ℕ → Option Object
  pub dict_assign : Table → List ℕ → Object → Table

abbrev pub cache_token : ℕ
cache_token = 1

abbrev pub cache_nick : ℕ
cache_nick = 2

abbrev pub cache_comm : ℕ
cache_comm = 3

-- tokenCache, nicknameCache and commonCache.
pub record Caches (Table : Type 0) : Type 0 where
  pub token : Table
  pub nickname : Table
  pub common : Table

module _ (dict : Dict) where
  open dict use {
    Table, dict_create, dict_add, dict_replace, dict_delete, dict_fetch_value, dict_assign,
  }

  abbrev pub create_cache : Caches Table
  create_cache = record { token = dict_create; nickname = dict_create; common = dict_create }

  -- selectCache: the table and the way to put it back, or a code and two pointers that stay NULL.
  abbrev pub select_cache : (cache : ℕ) → Caches Table → ℤ × Option (Table × (Table → Caches Table))
  select_cache cache c =
      if cache == cache_token
      then (pos 0, some (c.token, λ t. record c { token = t }))
      else if cache == cache_nick
      then (pos 0, some (c.nickname, λ t. record c { nickname = t }))
      else if cache == cache_comm
      then (pos 0, some (c.common, λ t. record c { common = t }))
      else (err_undefined_cache, none)

  abbrev pub cache_insert :
      (cache : ℕ) (key : List ℕ) → Object → Caches Table → Option (ℤ × Caches Table)
  cache_insert cache key obj c =
      (select_cache cache c).1
      >>= (λ (d, put). let (ret, t) = dict_add d key obj in some (ret, put t))

  abbrev pub cache_query : (cache : ℕ) (key : List ℕ) → Caches Table → Option (Option Object)
  cache_query cache key c = (select_cache cache c).1 >>= (λ (d, put). some (dict_fetch_value d key))

  abbrev pub cache_modify :
      (cache : ℕ) (key : List ℕ) → Object → Caches Table → Option (ℤ × Caches Table)
  cache_modify cache key obj c =
      (select_cache cache c).1
      >>= (λ (d, put). let (ret, t) = dict_replace d key obj in some (ret, put t))

  abbrev pub cache_delete : (cache : ℕ) (key : List ℕ) → Caches Table → Option (ℤ × Caches Table)
  cache_delete cache key c =
      (select_cache cache c).1
      >>= (λ (d, put). let (ret, t) = dict_delete d key in some (ret, put t))
