-- ===== src/Base/Text.antt =====
-- The text methods of Python that the program uses. `lower` and `upper` change
-- the 26 ASCII letters.
use Prim.Native.Nat.{ℕ, zero, suc}
use Prim.Native.Char.{Char, code}
use Prim.Native.String
use Prim.Native.String.{String, [], ◌∷◌}
use mathlib.Core.Path.{◌≡◌, refl}
use mathlib.Core.Bool.{Bool, true, false, ◌&&◌, ◌||◌}
use hydra_ultimate.Base.Tests.{leb, ◌==◌, str_eq, if◌then◌else◌}

-- `character.isspace()`
unfoldable pub is_space : Char → Bool
is_space c =
    let n = code c in
    (leb 9 n && leb n 13)
    || (leb 28 n && leb n 32)
    || n == 133
    || n == 160
    || n == 5760
    || (leb 8192 n && leb n 8202)
    || n == 8232
    || n == 8233
    || n == 8239
    || n == 8287
    || n == 12288

unfoldable pub lstrip : String → String
unfolding is_space
lstrip [] = []
lstrip (c ∷ s) = let rest = lstrip s in if is_space c then rest else c ∷ s

unfoldable pub rstrip : String → String
unfolding is_space
rstrip [] = []
rstrip (c ∷ s) = let rest = rstrip s in if is_space c && str_eq rest "" then [] else c ∷ rest

unfoldable pub strip : String → String
unfolding lstrip rstrip
strip s = rstrip (lstrip s)

-- The character of `to` at the place of `c` in `from`.
translate : String → String → Char → Char
translate [] to c = c
translate (u ∷ from) [] c = c
translate (u ∷ from) (l ∷ to) c = if code c == code u then l else translate from to c

unfoldable pub lower : String → String
unfolding translate
lower [] = []
lower (c ∷ s) = translate "ABCDEFGHIJKLMNOPQRSTUVWXYZ" "abcdefghijklmnopqrstuvwxyz" c ∷ lower s

unfoldable pub upper : String → String
unfolding translate
upper [] = []
upper (c ∷ s) = translate "abcdefghijklmnopqrstuvwxyz" "ABCDEFGHIJKLMNOPQRSTUVWXYZ" c ∷ upper s

-- `s.startswith(start)`
unfoldable pub starts_with : String → String → Bool
starts_with [] s = true
starts_with (c ∷ start) [] = false
starts_with (c ∷ start) (d ∷ s) = code c == code d && starts_with start s

-- `any(character.isspace() for character in s)`
unfoldable pub has_space : String → Bool
unfolding is_space
has_space [] = false
has_space (c ∷ s) = is_space c || has_space s

abbrev between : ℕ → ℕ → ℕ → Bool
between low high n = leb low n && leb n high

-- `normalized.replace("-", "").replace("_", "").isalnum()`, of a text in lower case: the first argument
-- tells whether a letter or a digit came before.
unfoldable pub is_name : Bool → String → Bool
is_name seen [] = seen
is_name seen (c ∷ s) =
    let n = code c in
    let is_alnum = between 48 57 n || between 97 122 n in
    let skipped = is_name seen s in
    let rest = is_name true s in if n == 45 || n == 95 then skipped else is_alnum && rest

lower-strip : lower (strip "  Alice Bob ") ≡ "alice bob"
unfolding lower strip
lower-strip = refl

-- `s <= t` on texts: by the code of the first character that differs.
unfoldable pub text_leb : String → String → Bool
text_leb [] t = true
text_leb (c ∷ s) [] = false
text_leb (c ∷ s) (d ∷ t) =
    let rest = text_leb s t in if code c == code d then rest else leb (code c) (code d)

-- One word of a text ends where white space begins; `started` and `pending` say what stands before.
words : Bool → Bool → String → String
words started pending [] = []
words started pending (c ∷ s) =
    let later = words started true s in
    let next = words true false s in
    if is_space c
    then later
    else if started && pending
    then String.◌++◌ " " (c ∷ next)
    else c ∷ next

-- `" ".join(text.split())`
unfoldable pub squeeze : String → String
unfolding words
squeeze s = words false false s

-- `text[:n]`
unfoldable pub prefix : ℕ → String → String
prefix zero s = []
prefix (suc n) [] = []
prefix (suc n) (c ∷ s) = c ∷ prefix n s
