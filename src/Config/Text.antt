-- ===== src/Config/Text.antt =====
-- The operations of Python's `str` that the configuration uses, on texts as lists of code points.
-- `lower` is that of ASCII and of the one other letter whose lower case is an ASCII letter, the Kelvin
-- sign: the texts it is compared with hold nothing else.
use rag_assistant.Prelude.{
  Bool, List, Option, [], any, ap, arith, false, if◌then◌else◌, leb, map, none, refl, some, true, ℕ,
  ◌&&◌, ◌+◌, ◌==◌, ◌||◌, ◌∷◌, ◌≡◌,
}
use Prim.Native.Char.{code}
use Prim.Native.String.{String}
use mathlib.Core.List.{reverse}

abbrev pub Text : Type 0
Text = List ℕ

abbrev pub codes : String → Text
codes String.[] = []
codes (String.◌∷◌ c s) = code c ∷ codes s

abbrev pub text_eq : Text → Text → Bool
text_eq [] [] = true
text_eq (a ∷ s) (b ∷ t) = (a == b) && text_eq s t
text_eq _ _ = false

-- `s in texts`
abbrev pub member : Text → List Text → Bool
member s texts = any (text_eq s) texts

-- `x == y` where either may be `None`
abbrev pub option_text_eq : Option Text → Option Text → Bool
option_text_eq none none = true
option_text_eq (some s) (some t) = text_eq s t
option_text_eq _ _ = false

lower_code : ℕ → ℕ
lower_code c = if leb b'A' c && leb c b'Z' then c + 32 else if c == 8490 then b'k' else c

unfoldable pub lower : Text → Text
unfolding lower_code
lower s = map lower_code s

-- The code points that `str.isspace` is true of.
unfoldable pub is_space : ℕ → Bool
is_space c =
    (leb 9 c && leb c 13)
    || (leb 28 c && leb c 32)
    || (c == 133)
    || (c == 160)
    || (c == 5760)
    || (leb 8192 c && leb c 8202)
    || (c == 8232)
    || (c == 8233)
    || (c == 8239)
    || (c == 8287)
    || (c == 12288)

abbrev drop_while : (ℕ → Bool) → Text → Text
drop_while p [] = []
drop_while p (c ∷ s) = let rest = drop_while p s in if p c then rest else c ∷ s

-- `s.strip(...)` for the set of code points `p`
unfoldable pub strip : (ℕ → Bool) → Text → Text
strip p s = reverse (drop_while p (reverse (drop_while p s)))

abbrev pub starts_with : Text → Text → Bool
starts_with s [] = true
starts_with [] (b ∷ t) = false
starts_with (a ∷ s) (b ∷ t) = (a == b) && starts_with s t

abbrev pub ends_with : Text → Text → Bool
ends_with s t = starts_with (reverse s) (reverse t)

-- `t in s`
abbrev pub has_part : Text → Text → Bool
has_part [] t = starts_with [] t
has_part (a ∷ s) t = starts_with (a ∷ s) t || has_part s t

pub text_eq-eq : (s t : Text) → text_eq s t ≡ true → s ≡ t
text_eq-eq [] [] h = refl
text_eq-eq [] (b ∷ t) h = cc
text_eq-eq (a ∷ s) [] h = cc
text_eq-eq (a ∷ s) (b ∷ t) h = ground (arith, text_eq-eq s t)

pub text_eq_refl : (s : Text) → text_eq s s ≡ true
text_eq_refl [] = refl
text_eq_refl (a ∷ s) = ground (arith, text_eq_refl s)

pub option_text_eq-eq : (s t : Option Text) → option_text_eq s t ≡ true → s ≡ t
option_text_eq-eq none none h = refl
option_text_eq-eq none (some t) h = cc
option_text_eq-eq (some s) none h = cc
option_text_eq-eq (some s) (some t) h = ap some (text_eq-eq s t h)

pub option_text_eq_refl : (s : Option Text) → option_text_eq s s ≡ true
option_text_eq_refl none = refl
option_text_eq_refl (some s) = text_eq_refl s
