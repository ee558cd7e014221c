-- ===== src/User/Overlay.antt =====
-- updateObj puts the fields that are set over those of the old object, field by field.
use c_framework_to_server.Base.{ℕ, List, [], ◌∷◌, ◌≡◌, refl, inl, inr, Bool-cases, if◌then◌else◌}
use c_framework_to_server.Base.Int.{ℤ, pos, eqb_ℤ}
use c_framework_to_server.Text.{codes, is_empty}
use c_framework_to_server.Sql.{Field, text, number, is_set}
use c_framework_to_server.User.{User, user_fields}
use c_framework_to_server.User.Convert.{update_obj, newer_text, newer_int}

-- Two lists of the same columns, the second over the first.
abbrev pub overlay : (old new : List Field) → List Field
overlay [] new = []
overlay (f ∷ old) [] = f ∷ old
overlay (f ∷ old) (g ∷ new) = (if is_set g then g else f) ∷ overlay old new

newer_text-overlay :
    (name old new : List ℕ) (rest rest' : List Field)
    → rest ≡ rest'
    → text name (newer_text old new) ∷ rest
      ≡ (if is_set (text name new) then text name new else text name old) ∷ rest'
newer_text-overlay name old new rest rest' h = elim (Bool-cases (is_empty new)) [
  | inl e ↦ rw (e, h)
  | inr e ↦ rw (e, h)
]

newer_int-overlay :
    (name : List ℕ) (old new : ℤ) (rest rest' : List Field)
    → rest ≡ rest'
    → number name (newer_int old new) ∷ rest
      ≡ (if is_set (number name new) then number name new else number name old) ∷ rest'
newer_int-overlay name old new rest rest' h = elim (Bool-cases (eqb_ℤ new (pos 0))) [
  | inl e ↦ rw (e, h)
  | inr e ↦ rw (e, h)
]

-- What a client sends in userModify goes into the cached object as it goes into the database: of the
-- columns of a SET clause, the updated object has those that the request sets, with the request's
-- values, and the old ones elsewhere.
pub update_obj-overlay :
    (des src : User)
    → user_fields (update_obj des src) ≡ overlay (user_fields des) (user_fields src)
unfolding update_obj
update_obj-overlay des src =
    (newer_text-overlay (codes "password") des.password src.password _ _ (
      newer_text-overlay (codes "token") des.token src.token _ _ (
        newer_text-overlay (codes "accType") des.acc_type src.acc_type _ _ (
          newer_text-overlay (codes "phone") des.phone src.phone _ _ (
            newer_text-overlay (codes "mail") des.mail src.mail _ _ (
              newer_text-overlay (codes "realName") des.real_name src.real_name _ _ (
                newer_text-overlay (codes "nickName") des.nick_name src.nick_name _ _ (
                  newer_text-overlay (codes "prcId") des.prc_id src.prc_id _ _ (
                    newer_text-overlay (codes "sex") des.sex src.sex _ _ (
                      newer_int-overlay (codes "birthday") des.birthday src.birthday _ _ (
                        newer_text-overlay (codes "country") des.country src.country _ _ (
                          newer_text-overlay (codes "province") des.province src.province _ _ (
                            newer_text-overlay (codes "city") des.city src.city _ _ (
                              newer_text-overlay (codes "district") des.district src.district _ _ (
                                newer_text-overlay (codes "address") des.address src.address _ _ (
                                  newer_text-overlay (codes "headPortrait") des.head_portrait
                                    src.head_portrait _ _
                                    (newer_text-overlay (codes "sign") des.sign src.sign _ _ (
                                      newer_int-overlay (codes "createTime") des.create_time
                                        src.create_time _ _
                                        (newer_int-overlay (codes "lastModifyTime")
                                          des.last_modify_time src.last_modify_time _ _
                                          refl)))))))))))))))))))
