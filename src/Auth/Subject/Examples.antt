-- ===== src/Auth/Subject/Examples.antt =====
-- subject.rs at a concrete subject.
use shaperail.Prelude.{List, [], ◌∷◌, ◌++◌, some, ◌≡◌, refl, eq_iff, arith}
use shaperail.Core.Error.{err, forbidden}
use shaperail.Auth.Subject.{Subject, Piece, push, push_bind, assert_tenant_match}
use shaperail.Auth.Subject.Isolation.{assert_tenant_match-Sees}

abbrev member_of_t1 : Subject
member_of_t1 = record { sub = "ann"; role = "member"; tenant_id = some "t1" }

assert_tenant_match-Sees_example : assert_tenant_match member_of_t1 "t2" ≡ err forbidden
assert_tenant_match-Sees_example =
    (assert_tenant_match-Sees member_of_t1 "t2").2 "t1"
      (ground (arith, eq_iff "member" "super_admin")) refl (ground (arith, eq_iff "t1" ""))
      (ground (arith, eq_iff "t1" "t2"))

abbrev base_query : List Piece
base_query = push "SELECT 1 WHERE true" ∷ []

abbrev scoped_query : List Piece
scoped_query = base_query ++ (push " AND " ∷ push "org" ∷ push " = " ∷ push_bind "t1" ∷ [])
