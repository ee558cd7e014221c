-- ===== src/Service/Guards.antt =====
-- What the token check lets through, and what it leaves alone.
pub mod Logout
pub mod Deletion
pub mod Codes
pub mod Notices
pub mod Update
use c_framework_to_server.Base.{
  ℕ, Bool, true, false, Option, none, some, List, [], ◌≡◌, refl, subst, ap, ◌⊎◌, inl, inr,
  Bool-cases, Option-cases, if◌then◌else◌,
}
use c_framework_to_server.Base.Int.{ℤ}
use c_framework_to_server.Memory.{◌>>=◌}
use c_framework_to_server.Text.{str_eq}
use c_framework_to_server.Errors.{err_not_login_yet, err_token_out_of_date}
use c_framework_to_server.Cache.{Object, user, msg_code, notice, app_ver}
use c_framework_to_server.Cache.Laws.{LawfulDict, OnSome, str_eq_refl, str_eq-eq}
use c_framework_to_server.User.{User}
use c_framework_to_server.Service.{Platform, World, Run, check_token, out_of_date, error_json}
use c_framework_to_server.Service.CacheInvariant.{IsValid, IsTokenEntry}

module _ (p : Platform) where
  abbrev pub cached : World p → (token : List ℕ) → Option Object
  cached s token = p.dict.dict_fetch_value s.caches.token token

  -- The token check has refused: the code is sent, the database is as it was, the token has no
  -- entry in the cache, and the other tokens have the entries that they had.
  pub record Refused (token : List ℕ) (s : World p) (code : ℤ) (run : Run p) : Type 0 where
    pub after : World p
    pub replied : run ≡ some (error_json p code, after)
    pub same_session : after.session ≡ s.session
    pub tokens_left : (k : List ℕ) → cached after k ≡ (if str_eq k token then none else cached s k)

  -- The three outcomes: no such token, a token that is out of date, and a user to go on with.
  pub data Checked (token : List ℕ) (go_on : User → World p → Run p) (s : World p) (run : Run p)
      : Type 0 where
    not_logged_in :
        cached s token ≡ none → Refused token s err_not_login_yet run → Checked token go_on s run
    expired :
        (u : User)
        → cached s token ≡ some (user u)
        → out_of_date p u ≡ true
        → Refused token s err_token_out_of_date run
        → Checked token go_on s run
    accepted :
        (u : User)
        → cached s token ≡ some (user u)
        → u.token ≡ token
        → out_of_date p u ≡ false
        → run ≡ go_on u s
        → Checked token go_on s run

module _ (p : Platform) (lawful : LawfulDict p.dict) where
  absent_left :
      (s : World p) (token : List ℕ)
      → cached p s token ≡ none
      → (k : List ℕ) → cached p s k ≡ (if str_eq k token then none else cached p s k)
  absent_left s token e k = elim (Bool-cases (str_eq k token)) [
    | inl t ↦ rw (t, str_eq-eq k token t, e)
    | inr t ↦ rw (t)
  ]

  -- The check that userStatus, userLogout, userModify and userDelete begin with, in a state whose
  -- caches are valid, never meets undefined behaviour and has three outcomes: with no entry for the
  -- token it replies "not login yet", with an entry that is out of date it replies that and drops
  -- the entry, both without a statement to the database and without a change to another token's
  -- entry; with a fresh entry the handler goes on with the user whose token it is.
  pub check_token-Checked :
      (token : List ℕ) (go_on : User → World p → Run p) (s : World p)
      → IsValid p s
      → Checked p token go_on s (check_token p token go_on s)
  unfolding check_token
  check_token-Checked token go_on s h = elim (Option-cases (cached p s token)) [
    | inl e ↦ not_logged_in e (record {
      after = s;
      replied = rw (e);
      same_session = refl;
      tokens_left = absent_left s token e;
    })
    | inr (user u, e) ↦ elim (Bool-cases (out_of_date p u)) [
      | inl t ↦ expired u e t (record {
        after = record s {
          caches = record (s.caches) { token = (p.dict.dict_delete (s.caches.token) token).1 };
        };
        replied = rw (e, t);
        same_session = refl;
        tokens_left = lawful.fetch_delete s.caches.token token;
      })
      | inr t ↦ accepted u e (subst (OnSome (IsTokenEntry token)) e (h.tokens token)) t (rw (e, t))
    ]
    | inr (msg_code m, e) ↦ absurd (subst (OnSome (IsTokenEntry token)) e (h.tokens token))
    | inr (notice m, e) ↦ absurd (subst (OnSome (IsTokenEntry token)) e (h.tokens token))
    | inr (app_ver m, e) ↦ absurd (subst (OnSome (IsTokenEntry token)) e (h.tokens token))
  ]
