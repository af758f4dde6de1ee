-- ===== src/Prelude/Text.antt =====
-- JavaScript strings that the program walks, as lists of UTF-16 code units, and the methods of
-- `String.prototype` it calls on them. `to_lower_case` is that of ASCII text: hosts, header names
-- and regions are ASCII.
use Prim.Native.Char.{code}
use odenctl.Prelude.{
  ℕ, ◌+◌, ◌≡◌, refl, ap, ◌↔◌, Bool, true, false, ◌&&◌, ◌||◌, String, List, [], ◌∷◌, ◌++◌, map,
  arith, Eq, nat_eq, ◌==◌, leb, if◌then◌else◌,
}

abbrev pub Text : Type 0
Text = List ℕ

-- The code points of a literal.
abbrev pub codes : String → Text
codes String.[] = []
codes (String.◌∷◌ c s) = code c ∷ codes s

abbrev pub text_beq : Text → Text → Bool
text_beq [] [] = true
text_beq [] (d ∷ ds) = false
text_beq (c ∷ cs) [] = false
text_beq (c ∷ cs) (d ∷ ds) = c == d && text_beq cs ds

text_beq_sound : (s t : Text) → text_beq s t ≡ true → s ≡ t
text_beq_sound [] [] h = refl
text_beq_sound (c ∷ cs) (d ∷ ds) h = ground (arith, text_beq_sound cs ds)
text_beq_sound s t h = ground arith

text_beq_refl : (s : Text) → text_beq s s ≡ true
text_beq_refl [] = refl
text_beq_refl (c ∷ cs) = ground (arith, text_beq_refl cs)

pub text_beq_iff : (s t : Text) → (text_beq s t ≡ true) ↔ (s ≡ t)
text_beq_iff s t = (text_beq_sound s t, λ e. rw e (text_beq_refl t))

instance abbrev pub text_eq : Eq Text
text_eq = record { beq = text_beq; beq_iff = text_beq_iff }

unfoldable pub starts_with : Text → Text → Bool
starts_with s [] = true
starts_with [] (p ∷ ps) = false
starts_with (c ∷ cs) (p ∷ ps) = c == p && starts_with cs ps

unfoldable pub ends_with : Text → ℕ → Bool
ends_with [] c = false
ends_with (x ∷ []) c = x == c
ends_with (x ∷ y ∷ xs) c = ends_with (y ∷ xs) c

abbrev pub is_space : ℕ → Bool
is_space c =
    (leb 9 c && leb c 13)
    || c == 32
    || c == 0xa0
    || c == 0x1680
    || (leb 0x2000 c && leb c 0x200a)
    || c == 0x2028
    || c == 0x2029
    || c == 0x202f
    || c == 0x205f
    || c == 0x3000
    || c == 0xfeff

unfoldable pub trim_start : Text → Text
trim_start [] = []
trim_start (c ∷ cs) = let rest = trim_start cs in if is_space c then rest else c ∷ cs

-- the last code unit kept, or nothing
drop_space : ℕ → Text → Text
drop_space c [] = if is_space c then [] else c ∷ []
drop_space c (d ∷ ds) = c ∷ d ∷ ds

unfoldable pub trim_end : Text → Text
unfolding drop_space
trim_end [] = []
trim_end (c ∷ cs) = drop_space c (trim_end cs)

unfoldable pub trim : Text → Text
unfolding trim_start trim_end
trim s = trim_end (trim_start s)

abbrev pub lower_code : ℕ → ℕ
lower_code c = if leb b'A' c && leb c b'Z' then c + 32 else c

unfoldable pub to_lower_case : Text → Text
to_lower_case = map lower_code

pub lower_code_idem : (c : ℕ) → lower_code (lower_code c) ≡ lower_code c
lower_code_idem c = ground arith

pub starts_with-append : (p s : Text) → starts_with (p ++ s) p ≡ true
unfolding starts_with
starts_with-append [] s = refl
starts_with-append (c ∷ p) s = ground (arith, starts_with-append p s)

pub starts_with-split : (s p : Text) → starts_with s p ≡ true → (rest : Text) × (s ≡ p ++ rest)
unfolding starts_with
starts_with-split s [] h = (s, refl)
starts_with-split [] (c ∷ p) h = cc
starts_with-split (d ∷ s) (c ∷ p) h =
    let (rest, e) = starts_with-split s p (ground arith) in
    let first : d ≡ c = ground arith in (rest, rw (first, ← e) refl)

pub append_slash : (base rest : Text) → (base ++ b'/' ∷ []) ++ rest ≡ base ++ (b'/' ∷ rest)
append_slash [] rest = refl
append_slash (c ∷ base) rest = ap (λ t. c ∷ t) (append_slash base rest)
