-- ===== src/Dispatch/Tests.antt =====
-- The dispatch of cFrameworkToServer/utils/socket_server.c on small requests.
use c_framework_to_server.Base.{
  ℕ, ◌-◌, ◌^◌, ◌≡◌, refl, none, some, List, [], ◌∷◌, ◌++◌, length, take, replicate, arith,
}
use c_framework_to_server.Base.Int.{pos}
use c_framework_to_server.Memory.{move, slice}
use c_framework_to_server.Text.{codes}
use c_framework_to_server.Errors.{err_json_parse_fail}
use c_framework_to_server.Sql.{Mysql}
use c_framework_to_server.Json.{CJson}
use c_framework_to_server.Cache.{create_cache}
use c_framework_to_server.Cache.Laws.{list_dict}
use c_framework_to_server.Frame.Heads.{answer_head}
use c_framework_to_server.Service.{Platform, World}
use c_framework_to_server.Service.Routes.{service_routes, say_hello}
use c_framework_to_server.Dispatch.{
  FdState, Network, json_handle, build_answer, next_request, socket_write, kept,
}
use c_framework_to_server.Dispatch.Answer.{json_handle-build_answer}
use c_framework_to_server.Dispatch.Faults.{json_handle-stale_error, build_answer-too_long}
use c_framework_to_server.Dispatch.Write.{socket_write-whole}

-- cJSON as a request for "sayhello" needs it, and a database that answers nothing.
abbrev hello_json : CJson
hello_json = record {
  Json = Unit;
  parse = λ text. some tt;
  get_object_item =
      λ json name. some (record { valueint = pos 0; valuestring = some (codes "sayhello") });
  print = λ members. codes "error";
}

abbrev silent_mysql : Mysql
silent_mysql = record {
  Session = Unit;
  mysql_query = λ sql s. (pos 0, s);
  mysql_affected_rows = λ s. pos 0;
  mysql_store_result = λ s. (none, s);
}

abbrev hello : Platform
hello = record {
  mysql = silent_mysql;
  c_json = hello_json;
  dict = list_dict;
  cbc = λ key iv block. block;
  stack = [];
  now = 1000;
  token_fresh_time = 1;
}

abbrev plain_net : Network hello
plain_net = record {
  overlapped = move;
  aes_encrypt = λ key block. block;
  aes_decrypt = λ key block. block;
  print_item = λ json name. some (codes "{}");
}

abbrev world : World hello
world = record {
  caches = create_cache list_dict;
  session = tt;
  random = record { x0 = 0; x1 = 0; x2 = 0; a0 = 0; a1 = 0; a2 = 0; c = 0 };
  buffer = [];
  buffer_used = 0;
}

abbrev request : List ℕ
request = codes "{route}"

-- A connection whose request is in its buffer.
abbrev asked : FdState
asked = record {
  buffer = request ++ replicate 1017 0;
  buffer_used = 7;
  n_written = 0;
  write_upto = 0;
  read_flag = 1;
  sh = answer_head 5 1 0 1 7;
  errcode = pos 0;
}

abbrev said : World hello
said = record world { buffer = codes "sayhello"; buffer_used = 8 }

json_handle-build_answer_example :
    (behind : List ℕ) × (json_handle hello plain_net asked world
      ≡ build_answer hello plain_net
          (record asked { buffer = codes "sayhello" ++ behind; buffer_used = 8 })
          said)
    × (length (codes "sayhello" ++ behind) ≡ 1024)
unfolding service_routes
json_handle-build_answer_example =
    json_handle-build_answer hello plain_net asked world world tt
      (record { valueint = pos 0; valuestring = some (codes "sayhello") }) (codes "sayhello")
      (codes "{}") (codes "sayhello") (say_hello hello) refl refl refl refl refl
      ((omega arith, omega arith), ((omega arith, omega arith), tt)) (omega arith) refl refl
      (omega arith)

-- The answer of one byte that a request without sense got.
abbrev failed_before : FdState
failed_before = record asked { n_written = 1; errcode = err_json_parse_fail }

json_handle-stale_error_example :
    ((next_request failed_before).errcode ≡ err_json_parse_fail)
    × (json_handle hello plain_net
          (record asked {
            write_upto = 0;
            n_written = 0;
            read_flag = 0;
            errcode = err_json_parse_fail;
          })
          world
        ≡ none)
unfolding socket_write slice
json_handle-stale_error_example =
    json_handle-stale_error hello plain_net failed_before (next_request failed_before) (pos 1 ∷ [])
      (take 1 request) (request ++ replicate 1017 0) 7 asked.sh world refl refl

build_answer-too_long_example :
    (fd' : FdState) × (build_answer hello plain_net (record asked { buffer_used = 1011 }) world
      ≡ some (fd', world))
    × (fd'.n_written ≡ 2 ^ 32 - 3)
    × (socket_write (pos 1 ∷ []) fd' ≡ none)
build_answer-too_long_example =
    build_answer-too_long hello plain_net (record asked { buffer_used = 1011 }) world (pos 1) []
      refl refl refl (omega arith)

-- Twenty-one bytes leave in two parts, and the connection is kept.
socket_write-whole_example :
    socket_write (pos 20 ∷ pos 1 ∷ []) (record asked { n_written = 21 })
    ≡ some (take 21 asked.buffer, kept (next_request asked))
socket_write-whole_example =
    socket_write-whole (20 ∷ 1 ∷ []) (record asked { n_written = 21 }) refl (omega arith)
      (omega arith) (omega arith, (omega arith, tt)) refl
