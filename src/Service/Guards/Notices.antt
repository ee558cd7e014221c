-- ===== src/Service/Guards/Notices.antt =====
-- Where noticeGet takes a message code for a notice.
use c_framework_to_server.Base.{suc, true, none, some, ◌++◌, ◌≡◌, refl, ap, ◌∙◌, length, ◌==◌}
use c_framework_to_server.Base.Int.{pos}
use c_framework_to_server.User.Store.{user_query_return_item_num}
use c_framework_to_server.Text.{codes}
use c_framework_to_server.Cache.{user, msg_code}
use c_framework_to_server.Cache.Laws.{LawfulDict, str_eq_refl}
use c_framework_to_server.Gateway.{msg_gateway_code, msg_wangyi}
use c_framework_to_server.User.{User}
use c_framework_to_server.Notice.{Notice}
use c_framework_to_server.Service.{Platform, World}
use c_framework_to_server.Service.Sessions.{ok_json}
use c_framework_to_server.Service.Verify.{verify_before_run, send_code, empty_code}
use c_framework_to_server.Service.Feed.{notice_get_run}
use c_framework_to_server.Service.Guards.{cached}
use c_framework_to_server.Service.Guards.Codes.{common}

module _ (p : Platform) (lawful : LawfulDict p.dict) where
  -- A message code and a notice may stand under one key: a verifyBefore that registers the phone "n_"
  -- and nine characters, which no user has, is answered by "ok" where nothing stood under that key, and
  -- a noticeGet of a logged-in user whose account is these characters then reads the code as a
  -- Notice, which is undefined behaviour.
  pub notice_get-verify_before :
      (request : User) (filter : Notice) (u : User) (s : World p) (db : p.mysql.Session)
      → request.cmd ≡ codes "regist"
      → request.phone ≡ codes "n_" ++ u.account
      → length u.account ≡ 9
      → user_query_return_item_num p.mysql (record request { account = request.phone }) s.session
        ≡ some (pos 0, db)
      → cached p s filter.token ≡ some (user u)
      → common p s (codes "n_" ++ u.account) ≡ none
      → (after : World p) × ((verify_before_run p request s ≡ some (ok_json p, after))
          × (notice_get_run p filter after ≡ none))
  unfolding notice_get_run verify_before_run
  notice_get-verify_before request filter u s db cmd phone nine counted e t =
      let key = codes "n_" ++ u.account in
      let (ret, new_code) = msg_gateway_code msg_wangyi p.now 6 empty_code in
      let (added, common') = p.dict.dict_add (s.caches.common) key (msg_code new_code) in
      let after : World p = record s {
        caches = record (s.caches) { common = common' };
        session = db;
      } in
      let stored : common p after key ≡ some (msg_code new_code) =
        lawful.fetch_add s.caches.common key (msg_code new_code) key ∙ rw (str_eq_refl key, t) in
      let eleven : (length request.phone == 11) ≡ true =
        ap (λ k. length k == 11) phone ∙ ap (λ k. suc (suc k) == 11) nine in
      let sent : send_code p request.phone (record s { session = db }) ≡ some (ok_json p, after) =
        ap (λ k. send_code p k (record s { session = db })) phone ∙ rw t refl in
      (after, (rw (cmd, eleven, counted) sent, rw (e, stored)))
