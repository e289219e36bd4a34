-- ===== src/Connection/UserData.antt =====
-- `set_user_data`, `get_user_data` and `release_user_data`: a union with a tag for its active member.
use sednl.Base.{ℕ, ◌==◌, not, ◌&&◌, if◌then◌else◌}
use sednl.Exceptions.{
  TypeExceptionT, user_data_wrong_type_given, user_data_wrong_type_asked, M, ok, thrown, fault,
  undefined,
}

-- The members of the union; `UserDataType` has one enumerator more.
pub data Member : Type 0 where
  string int char float ptr double : Member

pub data UserDataType : Type 0 where
  member : Member → UserDataType
  none_type : UserDataType

unfoldable pub member_number : Member → ℕ
member_number string = 0
member_number int = 1
member_number char = 2
member_number float = 3
member_number ptr = 4
member_number double = 5

-- The enumerators of `UserDataType` are numbered in their order.
abbrev pub type_number : UserDataType → ℕ
type_number (member m) = member_number m
type_number none_type = 6

-- The union holds the value last written, by the member it was written to. A value is its bits.
pub record UserData : Type 0 where
  pub m_data_type : UserDataType
  pub active : Member
  pub bits : ℕ

-- As `Connection::Connection` leaves it.
unfoldable pub no_user_data : UserData
no_user_data = record { m_data_type = none_type; active = double; bits = 0 }

abbrev pub WithData : Type 0 → Type 0
WithData A = M TypeExceptionT UserData A

-- Reading another member than the last one written is undefined.
unfoldable pub read_member : Member → WithData ℕ
read_member m c =
    if type_number (member m) == type_number (member c.active) then ok c.bits c else fault undefined

-- The six overloads, by the member they write.
unfoldable pub set_user_data : Member → ℕ → WithData (Unit {0})
set_user_data m given c =
    if not (type_number c.m_data_type == type_number none_type)
      && not (type_number c.m_data_type == type_number (member m))
    then thrown user_data_wrong_type_given c
    else ok tt (record { m_data_type = member m; active = m; bits = given })

-- The six specializations, by the member they read.
unfoldable pub get_user_data : Member → WithData ℕ
unfolding read_member
get_user_data m c =
    if not (type_number c.m_data_type == type_number (member m))
    then thrown user_data_wrong_type_asked c
    else read_member m c

unfoldable pub release_user_data : WithData (Unit {0})
release_user_data c = ok tt (record { m_data_type = none_type; active = double; bits = 0 })
