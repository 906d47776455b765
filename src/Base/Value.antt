-- ===== src/Base/Value.antt =====
-- The JSON values of the persisted document, and `int(value)` on them.
use Prim.Native.Nat.{ℕ, ◌+◌, ◌-◌, ◌*◌, ◌/◌, ◌^◌}
use Prim.Native.Char.{code}
use Prim.Native.String.{String}
use mathlib.Core.Path.{◌≡◌, refl}
use mathlib.Core.Bool.{Bool, true, false, not, ◌&&◌, ◌||◌}
use mathlib.Core.Option.{Option, none, some}
use mathlib.Core.List.{[], ◌∷◌}
use hydra_ultimate.Base.Tests.{leb, ◌==◌, str_eq, if◌then◌else◌}
use hydra_ultimate.Base.Text.{strip}
use hydra_ultimate.Base.Dict.{Dict}
use hydra_ultimate.Base.Int.{ℤ, pos, negsuc, sub_ℕ}

-- A `float` is a dyadic number: `float s n k` is n / 2 ^ k, negative if `s`.
mutual
  pub data Value : Type 0 where
    null : Value
    bool : Bool → Value
    int : ℤ → Value
    float : Bool → ℕ → ℕ → Value
    text : String → Value
    dict : Fields → Value
    list : Items → Value

  pub data Fields : Type 0 where
    no_fields : Fields
    with_field : String → Value → Fields → Fields

  pub data Items : Type 0 where
    with_item : Value → Items → Items
    no_items : Items

abbrev pub to_dict : Fields → Dict Value
to_dict no_fields = []
to_dict (with_field k v fs) = (k, v) ∷ to_dict fs

abbrev pub of_dict : Dict Value → Fields
of_dict [] = no_fields
of_dict ((k, v) ∷ d) = with_field k v (of_dict d)

pub to_dict-of_dict : (d : Dict Value) → to_dict (of_dict d) ≡ d
to_dict-of_dict [] = refl
to_dict-of_dict ((k, v) ∷ d) = rw (to_dict-of_dict d)

-- `isinstance(value, dict)`, with the dict
abbrev pub as_dict : Value → Option (Dict Value)
as_dict (dict fs) = some (to_dict fs)
as_dict _ = none

-- `isinstance(value, str)`, with the text
abbrev pub as_text : Value → Option String
as_text (text s) = some s
as_text _ = none

-- `bool(value)`
unfoldable pub truthy : Value → Bool
truthy null = false
truthy (bool b) = b
truthy (int (pos n)) = not (n == 0)
truthy (int (negsuc n)) = true
truthy (float s n k) = not (n == 0)
truthy (text s) = not (str_eq s "")
truthy (list no_items) = false
truthy (list _) = true
truthy (dict no_fields) = false
truthy (dict _) = true

-- The digits from here on, with single underscores between digits; `after` is whether the character
-- before is a digit.
digits : Bool → ℕ → String → Option ℕ
digits after n String.[] = if after then some n else none
digits after n (String.◌∷◌ c s) =
    let digit = leb 48 (code c) && leb (code c) 57 in
    let rest = digits digit (if digit then n * 10 + (code c - 48) else n) s in
    if digit || (after && code c == b'_') then rest else none

signed : String → Option ℤ
signed String.[] = none
signed (String.◌∷◌ c s) =
    let rest = digits false 0 s in
    if code c == b'-'
    then elim rest [ none ↦ none | some n ↦ some (sub_ℕ 0 n) ]
    else if code c == b'+'
    then elim rest [ none ↦ none | some n ↦ some (pos n) ]
    else elim (digits false 0 (String.◌∷◌ c s)) [ none ↦ none | some n ↦ some (pos n) ]

-- `int(text)` of a text in ASCII digits; `none` is a ValueError.
unfoldable pub int_of_text : String → Option ℤ
unfolding digits signed strip
int_of_text s = signed (strip s)

-- `int(value)`; `none` is a TypeError or a ValueError.
unfoldable pub int_of : Value → Option ℤ
unfolding int_of_text
int_of null = none
int_of (bool true) = some (pos 1)
int_of (bool false) = some (pos 0)
int_of (int z) = some z
int_of (float true n k) = some (sub_ℕ 0 (n / 2 ^ k))
int_of (float false n k) = some (pos (n / 2 ^ k))
int_of (text s) = int_of_text s
int_of (list xs) = none
int_of (dict fs) = none

padded_port : int_of (text " +9_001\n") ≡ some (pos 9001)
unfolding int_of
padded_port = refl

no_port : int_of (text "9__001") ≡ none
unfolding int_of
no_port = refl
