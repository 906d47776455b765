-- ===== src/Base/Equality.antt =====
-- Python's `==` on JSON values: numbers compare by their value, dicts without regard to order.
use Prim.Native.Nat.{ℕ, ◌+◌, ◌*◌, ◌^◌}
use mathlib.Core.Path.{◌≡◌, refl}
use mathlib.Core.Bool.{Bool, true, false, ◌&&◌}
use mathlib.Core.Option.{Option, none, some}
use mathlib.Core.List.{List, [], ◌∷◌}
use hydra_ultimate.Base.Tests.{◌==◌, str_eq}
use hydra_ultimate.Base.Lists.{length}
use hydra_ultimate.Base.Int.{pos, pos_part, neg_part}
use hydra_ultimate.Base.Dict.{Dict, lookup}
use hydra_ultimate.Base.Value.{Value, Fields, Items, to_dict}

module _ {V : Type 0} (eq : V → V → Bool) where
  -- All that the first dict holds, the second holds too.
  unfoldable pub covered : Dict V → Dict V → Bool
  unfolding lookup
  covered [] e = true
  covered ((k, v) ∷ d) e =
      elim (lookup k e) as (λ _. Bool) [ none ↦ false | some w ↦ eq v w ] && covered d e

  unfoldable pub dict_eq : Dict V → Dict V → Bool
  unfolding covered
  dict_eq d e = length d == length e && covered d e

  unfoldable pub list_eq : List V → List V → Bool
  list_eq [] [] = true
  list_eq [] (y ∷ ys) = false
  list_eq (x ∷ xs) [] = false
  list_eq (x ∷ xs) (y ∷ ys) = eq x y && list_eq xs ys

abbrev pub bool_eq : Bool → Bool → Bool
bool_eq true b = b
bool_eq false true = false
bool_eq false false = true

-- A number as what is positive and what is negative in it, over a power of two.
abbrev number_of : Value → Option (ℕ × ℕ × ℕ)
number_of (Value.bool true) = some (1, 0, 0)
number_of (Value.bool false) = some (0, 0, 0)
number_of (Value.int z) = some (pos_part z, neg_part z, 0)
number_of (Value.float true n k) = some (0, n, k)
number_of (Value.float false n k) = some (n, 0, k)
number_of _ = none

abbrev same_number : ℕ × ℕ × ℕ → ℕ × ℕ × ℕ → Bool
same_number (p, n, k) (q, m, l) = p * 2 ^ l + m * 2 ^ k == q * 2 ^ k + n * 2 ^ l

abbrev numbers_eq : Option (ℕ × ℕ × ℕ) → Option (ℕ × ℕ × ℕ) → Bool
numbers_eq none y = false
numbers_eq (some x) none = false
numbers_eq (some x) (some y) = same_number x y

abbrev count_fields : Fields → ℕ
count_fields Fields.no_fields = 0
count_fields (Fields.with_field k v fs) = 1 + count_fields fs

unfoldable mutual
  unfolding lookup

  pub value_eq : Value → Value → Bool
  value_eq Value.null Value.null = true
  value_eq (Value.text s) (Value.text t) = str_eq s t
  value_eq (Value.dict fs) (Value.dict gs) =
      count_fields fs == count_fields gs && fields_covered fs (to_dict gs)
  value_eq (Value.list xs) (Value.list ys) = items_eq xs ys
  value_eq v w = numbers_eq (number_of v) (number_of w)

  pub fields_covered : Fields → Dict Value → Bool
  fields_covered Fields.no_fields d = true
  fields_covered (Fields.with_field k v fs) d =
      elim (lookup k d) as (λ _. Bool) [ none ↦ false | some w ↦ value_eq v w ]
      && fields_covered fs d

  pub items_eq : Items → Items → Bool
  items_eq Items.no_items Items.no_items = true
  items_eq Items.no_items (Items.with_item w ys) = false
  items_eq (Items.with_item v xs) Items.no_items = false
  items_eq (Items.with_item v xs) (Items.with_item w ys) = value_eq v w && items_eq xs ys

one_is_true : value_eq (Value.int (pos 1)) (Value.bool true) ≡ true
unfolding value_eq
one_is_true = refl

half : value_eq (Value.float true 2 2) (Value.float true 1 1) ≡ true
unfolding value_eq
half = refl

in_any_order :
    value_eq
      (Value.dict (
        Fields.with_field "a" Value.null (Fields.with_field "b" (Value.text "x") Fields.no_fields)))
      (Value.dict (
        Fields.with_field "b" (Value.text "x") (Fields.with_field "a" Value.null Fields.no_fields)))
    ≡ true
unfolding value_eq
in_any_order = refl
