-- ===== src/User/Tests.antt =====
-- The theorems on the table `user` at concrete users.
use c_framework_to_server.Base.{◌≡◌, refl}
use c_framework_to_server.Base.Int.{pos}
use c_framework_to_server.Text.{codes, decimal, digits}
use c_framework_to_server.Sql.{and, get_where_or_set_string, add_fields}
use c_framework_to_server.User.{User, empty_user, user_fields, user_where_or_set}
use c_framework_to_server.User.Convert.{update_obj}
use c_framework_to_server.User.Overlay.{overlay, update_obj-overlay}

abbrev ann : User
ann = record empty_user {
  id = pos 3;
  account = codes "ann";
  password = codes "secret";
  city = codes "Ulm";
}

abbrev moved : User
moved = record empty_user { city = codes "Bonn"; birthday = pos 19990101 }

update_obj-overlay_example :
    user_fields (update_obj ann moved) ≡ overlay (user_fields ann) (user_fields moved)
update_obj-overlay_example = update_obj-overlay ann moved

ann_clause :
    user_where_or_set and ann
    ≡ codes "where id='3' and account='ann' and password='secret' and city='Ulm'"
unfolding get_where_or_set_string add_fields decimal digits
ann_clause = refl
