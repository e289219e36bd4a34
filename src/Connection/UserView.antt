-- ===== src/Connection/UserView.antt =====
-- The user's data as an optional value: what a program sees of the tagged union.
use sednl.Base.{
  Bool-cases, inl, inr, ◌∙◌, ℕ, ◌==◌, ◌≡◌, refl, ap, Bool, true, false, Option, none, some,
  if◌then◌else◌, arith, List, [], ◌∷◌,
}
use sednl.Exceptions.{
  TypeExceptionT, user_data_wrong_type_given, user_data_wrong_type_asked, Result, ok, thrown, fault,
}
use sednl.Connection.UserData.{
  Member, string, int, char, float, ptr, double, UserDataType, member, none_type, type_number,
  member_number, UserData, no_user_data, read_member, set_user_data, get_user_data,
  release_user_data,
}

-- The tag names the active member.
IsTagged : UserData → Type 0
IsTagged c = (m : Member) → c.m_data_type ≡ member m → c.active ≡ m

-- Nothing, or a value with its type.
abbrev pub View : Type 0
View = Option (Member × ℕ)

abbrev view_as : UserDataType → ℕ → View
view_as (member m) bits = some (m, bits)
view_as none_type bits = none

abbrev pub view : UserData → View
view c = view_as c.m_data_type c.bits

-- What a program does with the data of a connection, and what it gets back. `broken` is undefined.
pub data Op : Type 0 where
  put_data : Member → ℕ → Op
  ask : Member → Op
  release : Op

pub data Reply : Type 0 where
  done broken : Reply
  value : ℕ → Reply
  refused : TypeExceptionT → Reply

abbrev answer {ℓ} :
    {A : Type ℓ} → (A → Reply) → Result TypeExceptionT UserData A → UserData → Reply × UserData
answer f (ok a c') c = (f a, c')
answer f (thrown e c') c = (refused e, c')
answer f (fault x) c = (broken, c)

unfoldable pub perform : Op → UserData → Reply × UserData
unfolding set_user_data get_user_data release_user_data
perform (put_data m v) c = answer (λ _. done) (set_user_data m v c) c
perform (ask m) c = answer value (get_user_data m c) c
perform release c = answer (λ _. done) (release_user_data c) c

-- The contract: a value gives way to one of its type only, until it is released.
abbrev pub same_member : Member → Member → Bool
same_member k m = type_number (member k) == type_number (member m)

unfoldable pub perform_view : Op → View → Reply × View
perform_view (put_data m v) none = (done, some (m, v))
perform_view (put_data m v) (some (k, old)) =
    if same_member k m
    then (done, some (m, v))
    else (refused user_data_wrong_type_given, some (k, old))
perform_view (ask m) none = (refused user_data_wrong_type_asked, none)
perform_view (ask m) (some (k, old)) =
    if same_member k m
    then (value old, some (k, old))
    else (refused user_data_wrong_type_asked, some (k, old))
perform_view release _ = (done, none)

unfoldable pub perform_all : List Op → UserData → List Reply
unfolding perform
perform_all [] c = []
perform_all (op ∷ ops) c = let (reply, c') = perform op c in reply ∷ perform_all ops c'

unfoldable pub perform_all_view : List Op → View → List Reply
unfolding perform_view
perform_all_view [] c = []
perform_all_view (op ∷ ops) c =
    let (reply, c') = perform_view op c in reply ∷ perform_all_view ops c'

below_none : (k : Member) → (member_number k == 6) ≡ false
unfolding member_number
below_none string = refl
below_none int = refl
below_none char = refl
below_none float = refl
below_none ptr = refl
below_none double = refl

-- One operation answers as the contract does, and keeps the tag right.
perform-perform_view :
    (op : Op) (t : UserDataType) (a : Member) (b : ℕ)
    → IsTagged (record { m_data_type = t; active = a; bits = b })
    → ((perform op (record { m_data_type = t; active = a; bits = b })).0
        ≡ (perform_view op (view_as t b)).0)
      × (view (perform op (record { m_data_type = t; active = a; bits = b })).1
          ≡ (perform_view op (view_as t b)).1)
      × IsTagged (perform op (record { m_data_type = t; active = a; bits = b })).1
unfolding perform perform_view set_user_data get_user_data release_user_data read_member IsTagged
perform-perform_view (put_data m v) none_type a b tagged = (refl, refl, λ k e. cc)
perform-perform_view (put_data m v) (member k) a b tagged =
    elim (Bool-cases (member_number k == member_number m)) [
      | inl same ↦ rw (below_none k, same) (refl, refl, λ j e. cc)
      | inr other ↦ rw (below_none k, other) (refl, refl, tagged)
    ]
perform-perform_view (ask m) none_type a b tagged =
    let known : (6 == member_number m) ≡ false = ground (arith, below_none m) in
    rw known (refl, refl, tagged)
perform-perform_view (ask m) (member k) a b tagged =
    elim (Bool-cases (member_number k == member_number m)) [
      | inl same ↦
          let active : (member_number m == member_number a) ≡ true =
            ground (arith, ap member_number (tagged k refl)) in
          rw (same, active) (refl, refl, tagged)
      | inr other ↦ rw other (refl, refl, tagged)
    ]
perform-perform_view release t a b tagged = (refl, refl, λ k e. absurd (cc e))

perform_all-perform_all_view :
    (ops : List Op) (c : UserData) → IsTagged c → perform_all ops c ≡ perform_all_view ops (view c)
unfolding perform_all perform_all_view
perform_all-perform_all_view [] c tagged = refl
perform_all-perform_all_view (op ∷ ops) c tagged =
    let (reply, seen, tagged') = perform-perform_view op c.m_data_type c.active c.bits tagged in
    let rest = perform_all-perform_all_view ops (perform op c).1 tagged' in
    ap (λ r. r ∷ perform_all ops (perform op c).1) reply
    ∙ ap (λ l. (perform_view op (view c)).0 ∷ l) (rest ∙ ap (perform_all_view ops) seen)

-- Whatever a program does with the data of a new connection, it gets the answers of an optional value
-- with a type.
pub perform_all-no_user_data :
    (ops : List Op) → perform_all ops no_user_data ≡ perform_all_view ops none
unfolding no_user_data
perform_all-no_user_data ops =
    perform_all-perform_all_view ops no_user_data (unfold IsTagged in λ m e. absurd (cc e))
