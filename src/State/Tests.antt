-- ===== src/State/Tests.antt =====
-- Runs of `add_user` on users given by their e-mail and their UUID.
use hydra_ultimate.Base.{arith, eq_iff, String, ◌≡◌, refl, List, [], ◌∷◌, ok, err, value_error}
use hydra_ultimate.State.{UserView, add_user, find_user, duplicate_uuid, replace_user}
use hydra_ultimate.State.Laws.{AreUnique, add_user-AreUnique}

abbrev pairs : UserView (String × String)
pairs = record { email = λ u. u.0; uuid = λ u. u.1 }

abbrev two : List (String × String)
two = ("ann", "u-1") ∷ ("bob", "u-2") ∷ []

two-AreUnique : AreUnique pairs two
two-AreUnique = (
  ((λ e. ground (arith, eq_iff "ann" "bob"), λ e. ground (arith, eq_iff "u-1" "u-2")), tt),
  (tt, tt),
)

-- A user with a known e-mail takes the place of the one who has it.
replaced : add_user pairs two ("bob", "u-3") ≡ ok (("ann", "u-1") ∷ ("bob", "u-3") ∷ [])
unfolding add_user find_user duplicate_uuid replace_user
replaced = refl

refused :
    add_user pairs two ("eve", "u-1") ≡ err (value_error "UUID уже используется пользователем ann")
unfolding add_user find_user duplicate_uuid replace_user
refused = refl

add_user-AreUnique_example : AreUnique pairs (("ann", "u-1") ∷ ("bob", "u-3") ∷ [])
add_user-AreUnique_example =
    add_user-AreUnique pairs two ("bob", "u-3") (("ann", "u-1") ∷ ("bob", "u-3") ∷ []) two-AreUnique
      replaced
