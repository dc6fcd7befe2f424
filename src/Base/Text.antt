-- ===== src/Base/Text.antt =====
-- Texts as lists of bytes, and what the code uses of Go's `strings`: `TrimSpace`, `ToLower`,
-- `EqualFold` and `Fields`. Case and white space are those of ASCII.
use Prim.Native.Char.{code}
use Prim.Native.Nat.{ℕ, ◌+◌}
use Prim.Native.String.{String}
use knowledge_mesh.Base.Tests.{leb, nat_beq, if◌then◌else◌}
use mathlib.Core.Bool.{◌&&◌, ◌||◌, Bool, true, false}
use mathlib.Core.List.{reverse, List, [], ◌∷◌, map}
use mathlib.Core.Logic.{◌↔◌}
use mathlib.Core.Path.{◌≡◌, refl}
use native.Mathlib.Omega.{arith}

abbrev pub Text : Type 0
Text = List ℕ

-- The bytes of a literal.
abbrev pub codes : String → Text
codes String.[] = []
codes (String.◌∷◌ c s) = code c ∷ codes s

unfoldable pub text_beq : Text → Text → Bool
text_beq [] [] = true
text_beq (x ∷ xs) (y ∷ ys) = nat_beq x y && text_beq xs ys
text_beq _ _ = false

pub text_beq_iff : (a b : Text) → (text_beq a b ≡ true) ↔ (a ≡ b)
unfolding text_beq
text_beq_iff [] [] = ground arith
text_beq_iff (x ∷ xs) (y ∷ ys) = ground (arith, text_beq_iff xs ys)
text_beq_iff [] (y ∷ ys) = ground arith
text_beq_iff (x ∷ xs) [] = ground arith

pub text_beq_refl : (a : Text) → text_beq a a ≡ true
text_beq_refl a = (text_beq_iff a a).1 refl

unfoldable pub is_space : ℕ → Bool
is_space c = nat_beq c 32 || leb 9 c && leb c 13

unfoldable pub lower : ℕ → ℕ
lower c = if leb b'A' c && leb c b'Z' then c + 32 else c

-- strings.ToLower
abbrev pub to_lower : Text → Text
to_lower = map lower

-- strings.EqualFold
abbrev pub equal_fold : Text → Text → Bool
equal_fold a b = text_beq (to_lower a) (to_lower b)

unfoldable pub trim_left : (ℕ → Bool) → Text → Text
trim_left cut [] = []
trim_left cut (c ∷ s) = let rest = trim_left cut s in if cut c then rest else c ∷ s

unfoldable pub trim_right : (ℕ → Bool) → Text → Text
unfolding trim_left
trim_right cut s = reverse (trim_left cut (reverse s))

-- strings.TrimSpace
unfoldable pub trim_space : Text → Text
unfolding trim_left trim_right is_space
trim_space s = trim_right is_space (trim_left is_space s)

abbrev pub is_empty : Text → Bool
is_empty [] = true
is_empty (c ∷ s) = false

-- strings.Fields: the maximal runs without white space. `word` is the run being read, reversed.
abbrev pub flush : Text → List Text → List Text
flush [] rest = rest
flush (c ∷ word) rest = reverse (c ∷ word) ∷ rest

unfoldable pub fields_from : Text → Text → List Text
unfolding is_space
fields_from word [] = flush word []
fields_from word (c ∷ s) =
    let next = fields_from [] s in
    let longer = fields_from (c ∷ word) s in if is_space c then flush word next else longer

unfoldable pub fields : Text → List Text
unfolding fields_from
fields s = fields_from [] s

pub lower_idem : (c : ℕ) → lower (lower c) ≡ lower c
unfolding lower
lower_idem c = ground arith

pub to_lower_idem : (s : Text) → to_lower (to_lower s) ≡ to_lower s
to_lower_idem [] = refl
to_lower_idem (c ∷ s) = ground (arith, lower_idem c, to_lower_idem s)

trim_left_idem : (cut : ℕ → Bool) (s : Text) → trim_left cut (trim_left cut s) ≡ trim_left cut s
unfolding trim_left
trim_left_idem cut [] = refl
trim_left_idem cut (c ∷ s) = ground (arith, trim_left_idem cut s)

trims : trim_space (codes "  Chat bot ") ≡ codes "Chat bot"
unfolding trim_space
trims = refl

splits : fields (codes "  one two  ") ≡ codes "one" ∷ codes "two" ∷ []
unfolding fields
splits = refl
