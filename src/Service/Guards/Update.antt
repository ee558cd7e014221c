-- ===== src/Service/Guards/Update.antt =====
-- What userModify writes in the cache and in the database.
use c_framework_to_server.Base.{arith, ℕ, false, some, List, ◌≡◌, refl, ◌∙◌, ◌%◌, ◌^◌}
use c_framework_to_server.Cache.{user}
use c_framework_to_server.Cache.Laws.{LawfulDict, str_eq_refl}
use c_framework_to_server.Sql.{exec_db}
use c_framework_to_server.User.{User, user_fields}
use c_framework_to_server.User.Store.{user_modify_sql}
use c_framework_to_server.User.Texts.{Fits}
use c_framework_to_server.User.Overlay.{overlay, update_obj-overlay}
use c_framework_to_server.User.Convert.{update_obj}
use c_framework_to_server.Service.{Platform, World, Run, check_token, out_of_date}
use c_framework_to_server.Service.Sessions.{
  user_modify_run, modify_found, refresh_user, assign_user, ok_json,
}
use c_framework_to_server.Service.Guards.{cached}
use c_framework_to_server.Service.Guards.Logout.{user_modify-runs, reply_one-runs}

module _ (p : Platform) where
  -- The cache and the database after an update that `filter` asks for.
  pub record Updated (filter u : User) (s : World p) (run : Run p) : Type 0 where
    pub text : List ℕ
    pub after : World p
    pub entry : User
    pub replied : run ≡ some (text, after)
    pub cached_entry : cached p after filter.token ≡ some (user entry)
    pub columns : user_fields entry ≡ overlay (user_fields u) (user_fields filter)
    pub refreshed : entry.token_fresh_time_stamp ≡ p.now % 2 ^ 32
    pub same_id : entry.id ≡ u.id
    pub sent :
        after.session
        ≡ (exec_db p.mysql (user_modify_sql (record filter { id = u.id })) s.session).1

module _ (p : Platform) (lawful : LawfulDict p.dict) where
  modify_found-Updated :
      (filter u : User) (s : World p)
      → Fits filter
      → cached p s filter.token ≡ some (user u)
      → Updated p filter u s (modify_found p filter u s)
  unfolding update_obj
  modify_found-Updated filter u s fits e =
      let s1 = assign_user p filter.token (refresh_user p filter u) s in
      let ((ret, db), (modified, sent)) =
        user_modify-runs p (record filter { id = u.id }) s.session (omega arith) in
      let after : World p = record s1 { session = db } in
      let (text, replied) = reply_one-runs p ret (ok_json p) after in
      record {
        text = text;
        after = after;
        entry = refresh_user p filter u;
        replied = rw (modified) replied;
        cached_entry =
            lawful.fetch_assign s.caches.token filter.token (user (refresh_user p filter u))
              filter.token
            ∙ rw (str_eq_refl filter.token, e);
        columns = update_obj-overlay u filter;
        refreshed = refl;
        same_id = refl;
        sent = sent;
      }

  -- For a user with a fresh login and a request whose strings fit in their arrays, userModify always
  -- replies. The cached user then has the request's values in the columns that the request sets and
  -- the old ones in the others, the time of its token is now, its id is the old one; and the database
  -- has got one statement, which sets the same columns for that id.
  pub user_modify-Updated :
      (filter u : User) (s : World p)
      → Fits filter
      → cached p s filter.token ≡ some (user u)
      → out_of_date p u ≡ false
      → Updated p filter u s (user_modify_run p filter s)
  unfolding check_token
  user_modify-Updated filter u s fits e t = rw (e, t) (modify_found-Updated filter u s fits e)
