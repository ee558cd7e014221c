-- ===== src/Service/Guards/Codes.antt =====
-- What a message code is needed for, and what becomes of one that is out of date.
use c_framework_to_server.Base.{
  ℕ, ◌+◌, true, false, not, ◌&&◌, refl, sym, ◌||◌, Option, some, List, ◌≡◌, subst, ap, ◌∙◌, ◌⊎◌,
  inl, inr, Bool-cases, Option-cases, arith, length, ltb, ◌==◌,
}
use c_framework_to_server.Base.Int.{ℤ, pos, eqb_ℤ, ltb_ℤ}
use c_framework_to_server.Text.{codes, str_eq}
use c_framework_to_server.Errors.{
  err_phone_number_wrong, err_not_find_cache, err_msg_code_out_of_date, err_msg_code_wrong,
}
use c_framework_to_server.Service.Ensures.{
  Ensures, Ensures-bind, Ensures-any, Ensures-if, Ensures-some,
}
use c_framework_to_server.User.Store.{user_query_return_item_num}
use c_framework_to_server.Cache.{Object, user, msg_code, notice, app_ver, MsgCode}
use c_framework_to_server.Cache.Laws.{LawfulDict, OnSome, kept, str_eq-eq}
use c_framework_to_server.User.{User}
use c_framework_to_server.Service.{Platform, World, error_json}
use c_framework_to_server.Service.Verify.{
  verify_before_run, verify_after_run, send_code, empty_code, as_msg_code,
}
use c_framework_to_server.Service.CacheInvariant.{IsValid, IsCommonEntry}

module _ (p : Platform) where
  abbrev pub common : World p → (key : List ℕ) → Option Object
  common s key = p.dict.dict_fetch_value s.caches.common key

  -- A code is stored for the phone, it is still good, and the request names it.
  abbrev pub HasCode : User → World p → Type 0
  HasCode filter s =
      (m : MsgCode) × ((common s filter.phone ≡ some (msg_code m))
        × ((ltb (m.time_stamp + m.fresh_time) p.now ≡ false)
            × (str_eq filter.password m.code ≡ true)))

  Rejected : User → World p → Type 0
  Rejected filter s =
      (code : ℤ) × (ltb_ℤ code (pos 0) ≡ true)
      × (verify_after_run p filter s ≡ some (error_json p code, s))

  short_key : (phone : List ℕ) → length phone ≡ 11 → phone ≡ codes "appVersion" → ⊥
  short_key phone n e = omega (arith, ap length e)

  eleven :
      (phone password : List ℕ)
      → (not (length phone == 11) || not (length password == 6)) ≡ false
      → length phone ≡ 11
  eleven phone password a = ground arith

  code_Rejected :
      (filter : User) (s : World p) (m : MsgCode)
      → (not (length filter.phone == 11) || not (length filter.password == 6)) ≡ false
      → common s filter.phone ≡ some (msg_code m)
      → HasCode filter s ⊎ Rejected filter s
  unfolding verify_after_run Rejected
  code_Rejected filter s m a e = elim (Bool-cases (ltb (m.time_stamp + m.fresh_time) p.now)) [
    | inl t ↦ inr (err_msg_code_out_of_date, refl, rw (a, e, t))
    | inr t ↦ elim (Bool-cases (str_eq filter.password m.code)) [
      | inl c ↦ inl (m, (e, (t, c)))
      | inr c ↦ inr (err_msg_code_wrong, refl, rw (a, e, t, c))
    ]
  ]

  -- In a state whose caches are valid, a verifyAfter either names the good code that is stored for
  -- its phone, or it replies with the JSON of a negative code, which is an error, and changes nothing:
  -- no user, no token, no other code.
  pub verify_after-HasCode :
      (filter : User) (s : World p)
      → IsValid p s
      → HasCode filter s
        ⊎ ((code : ℤ) × (ltb_ℤ code (pos 0) ≡ true)
            × (verify_after_run p filter s ≡ some (error_json p code, s)))
  unfolding verify_after_run Rejected
  verify_after-HasCode filter s h =
      elim (Bool-cases (not (length filter.phone == 11) || not (length filter.password == 6))) [
        | inl a ↦ inr (err_phone_number_wrong, refl, rw (a))
        | inr a ↦ elim (Option-cases (common s filter.phone)) [
          | inl e ↦ inr (err_not_find_cache, refl, rw (a, e))
          | inr (msg_code m, e) ↦ code_Rejected filter s m a e
          | inr (user m, e) ↦
              absurd (subst (OnSome (IsCommonEntry filter.phone)) e (h.commons filter.phone))
          | inr (notice m, e) ↦
              absurd (subst (OnSome (IsCommonEntry filter.phone)) e (h.commons filter.phone))
          | inr (app_ver m, e) ↦ absurd (
              short_key filter.phone (eleven filter.phone filter.password a)
                (subst (OnSome (IsCommonEntry filter.phone)) e (h.commons filter.phone)))
        ]
      ]

-- The time of day changes between requests.
abbrev pub at_time : Platform → (t : ℕ) → Platform
at_time p t = record p { now = t }

module _ (p : Platform) (lawful : LawfulDict p.dict) where
  -- What a result of verifyBefore leaves of an entry.
  abbrev Stays : (key : List ℕ) → Object → List ℕ × World p → Type 0
  Stays key obj (text, after) = common p after key ≡ some obj

  added_Stays :
      (phone key : List ℕ) (obj new : Object) (t : p.dict.Table)
      → p.dict.dict_fetch_value t key ≡ some obj
      → p.dict.dict_fetch_value (p.dict.dict_add t phone new).1 key ≡ some obj
  added_Stays phone key obj new t e = elim (Bool-cases (str_eq key phone)) [
    | inl same ↦
        lawful.fetch_add t phone new key
        ∙ rw same (
            ap (λ k. some (kept (p.dict.dict_fetch_value t k) new)) (sym (str_eq-eq key phone same))
            ∙ rw e refl)
    | inr other ↦ lawful.fetch_add t phone new key ∙ rw other e
  ]

  send_code-Stays :
      (phone key : List ℕ) (obj : Object) (s : World p)
      → common p s key ≡ some obj
      → Ensures (Stays key obj) (send_code p phone s)
  send_code-Stays phone key obj s e =
      Ensures-bind (λ m. Unit) (Stays key obj)
        (elim (p.dict.dict_fetch_value s.caches.common phone) [
          | Option.none ↦ some empty_code
          | some o ↦ as_msg_code o
        ])
        _ (Ensures-any _) (λ old any. added_Stays phone key obj _ s.caches.common e)

  verify_before-Stays :
      (filter : User) (key : List ℕ) (obj : Object) (s : World p)
      → common p s key ≡ some obj
      → Ensures (Stays key obj) (verify_before_run p filter s)
  unfolding verify_before_run
  verify_before-Stays filter key obj s e =
      let regist = str_eq filter.cmd (codes "regist") in
      let login = str_eq filter.cmd (codes "login") in
      Ensures-if (Stays key obj) (not regist && not login) _ _ e (
        Ensures-if (Stays key obj) (not (length filter.phone == 11)) _ _ e (
          Ensures-bind (λ r. Unit) (Stays key obj)
            (user_query_return_item_num p.mysql (record filter { account = filter.phone })
              s.session)
            _ (Ensures-any _)
            λ (ret, db) any.
              let s1 : World p = record s { session = db } in
              Ensures-if (Stays key obj) (regist && not (eqb_ℤ ret (pos 0))) _ _ e (
                Ensures-if (Stays key obj) (login && not (ltb_ℤ (pos 0) ret)) _ _ e
                  (send_code-Stays filter.phone key obj s1 e))))

module _ (p : Platform) (lawful : LawfulDict p.dict) where
  -- Any number of verifyBefores, each at its own time and for any phone.
  pub data Asked (s : World p) : World p → Type 0 where
    not_yet : Asked s s
    then_before :
        {s1 s2 : World p} (t : ℕ) (filter : User) (text : List ℕ)
        → Asked s s1
        → verify_before_run (at_time p t) filter s1 ≡ some (text, s2)
        → Asked s s2

  Asked-Stays :
      {s s' : World p} (key : List ℕ) (obj : Object)
      → Asked s s'
      → common p s key ≡ some obj
      → common p s' key ≡ some obj
  Asked-Stays key obj not_yet e = e
  Asked-Stays {s' = s'} key obj (then_before {s1 = s1} t filter text r run) e =
      Ensures-some _ (verify_before_run (at_time p t) filter s1) (text, s')
        (verify_before-Stays (at_time p t) lawful filter key obj s1 (Asked-Stays key obj r e)) run

  -- A code that is out of date is never replaced: however many verifyBefores are made, whatever they
  -- ask for and whenever, the old code still stands under the phone, and a verifyAfter for that phone
  -- with any code of six characters, at a time at which the old code is out of date, is answered by
  -- "message code out of date" and changes nothing.
  pub verify_before-out_of_date :
      {s s' : World p} (filter : User) (m : MsgCode) (t : ℕ)
      → Asked s s'
      → length filter.phone ≡ 11
      → length filter.password ≡ 6
      → common p s filter.phone ≡ some (msg_code m)
      → ltb (m.time_stamp + m.fresh_time) t ≡ true
      → (common p s' filter.phone ≡ some (msg_code m))
        × (verify_after_run (at_time p t) filter s'
            ≡ some (error_json p err_msg_code_out_of_date, s'))
  unfolding verify_after_run
  verify_before-out_of_date filter m t r n k e late =
      let still = Asked-Stays filter.phone (msg_code m) r e in
      let asked : (not (length filter.phone == 11) || not (length filter.password == 6)) ≡ false =
        rw (n, k) in
      (still, rw (asked, still, late))
