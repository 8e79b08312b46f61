-- ===== src/Prelude/Trim.antt =====
-- What `strip` and SQL's `trim` leave of a text.
use Prim.Native.Nat.{ℕ}
use Prim.Native.Char.{code}
use Prim.Native.String.{String}
use mathlib.Core.Path.{◌≡◌, refl, ◌∙◌}
use mathlib.Core.Bool.{Bool, true, false, ◌&&◌}
use mathlib.Core.Logic.{inl, inr}
use native.Mathlib.Omega.{arith}
use esafe.Prelude.Tests.{ltb, ◌==◌, Bool-cases}
use esafe.Prelude.Texts.{
  is_space, drop_while, reverse_onto, trim_by, strip, all_chars, is_empty, text_length,
}

is_empty-reverse_onto :
    (acc s : String) → is_empty (reverse_onto acc s) ≡ (is_empty acc && is_empty s)
unfolding reverse_onto
is_empty-reverse_onto acc String.[] = ground arith
is_empty-reverse_onto acc (String.◌∷◌ c s) =
    ground (arith, is_empty-reverse_onto (String.◌∷◌ c acc) s)

is_empty_reversed : (s : String) → is_empty (reverse_onto "" s) ≡ is_empty s
is_empty_reversed s = ground (arith, is_empty-reverse_onto "" s)

module _ (p : ℕ → Bool) where
  all_chars-drop_while : (s : String) → all_chars p (drop_while p s) ≡ all_chars p s
  unfolding all_chars drop_while
  all_chars-drop_while String.[] = refl
  all_chars-drop_while (String.◌∷◌ c s) = elim (Bool-cases (p (code c))) [
    | inl y ↦ rw y (all_chars-drop_while s)
    | inr n ↦ rw n (rw n)
  ]

  all_chars-reverse_onto :
      (acc s : String) → all_chars p (reverse_onto acc s) ≡ (all_chars p acc && all_chars p s)
  unfolding all_chars reverse_onto
  all_chars-reverse_onto acc String.[] = ground arith
  all_chars-reverse_onto acc (String.◌∷◌ c s) =
      ground (arith, all_chars-reverse_onto (String.◌∷◌ c acc) s)

  is_empty-drop_while : (s : String) → is_empty (drop_while p s) ≡ all_chars p s
  unfolding all_chars drop_while
  is_empty-drop_while String.[] = refl
  is_empty-drop_while (String.◌∷◌ c s) = elim (Bool-cases (p (code c))) [
    | inl y ↦ rw y (is_empty-drop_while s)
    | inr n ↦ rw n
  ]

  reversed : (s : String) → all_chars p (reverse_onto "" s) ≡ all_chars p s
  unfolding all_chars
  reversed s = ground (arith, all_chars-reverse_onto "" s)

  -- What is left is empty exactly if every character was one of p.
  pub is_empty-trim_by : (s : String) → is_empty (trim_by p s) ≡ all_chars p s
  unfolding trim_by
  is_empty-trim_by s =
      is_empty_reversed (drop_while p (reverse_onto "" (drop_while p s)))
      ∙ is_empty-drop_while (reverse_onto "" (drop_while p s))
      ∙ reversed (drop_while p s)
      ∙ all_chars-drop_while s

  pub all_chars-trim_by : (s : String) → all_chars p (trim_by p s) ≡ all_chars p s
  unfolding trim_by
  all_chars-trim_by s =
      reversed (drop_while p (reverse_onto "" (drop_while p s)))
      ∙ all_chars-drop_while (reverse_onto "" (drop_while p s))
      ∙ reversed (drop_while p s)
      ∙ all_chars-drop_while s

all_chars_mono :
    (p q : ℕ → Bool) (s : String)
    → ((c : ℕ) → p c ≡ true → q c ≡ true)
    → all_chars p s ≡ true
    → all_chars q s ≡ true
unfolding all_chars
all_chars_mono p q String.[] f h = refl
all_chars_mono p q (String.◌∷◌ c s) f h = ground (arith, f (code c), all_chars_mono p q s f)

space_is_space : (c : ℕ) → (c == 32) ≡ true → is_space c ≡ true
unfolding is_space
space_is_space c h = ground arith

not_empty_length : (s : String) → is_empty s ≡ false → ltb 0 (text_length s) ≡ true
unfolding text_length
not_empty_length String.[] h = ground arith
not_empty_length (String.◌∷◌ c s) h = ground arith

-- A text that is not blank for `strip` is not blank for SQL's `trim` once stripped.
pub sql_trim-strip :
    (s : String)
    → is_empty (strip s) ≡ false
    → ltb 0 (text_length (trim_by (λ c. c == 32) (strip s))) ≡ true
unfolding strip
sql_trim-strip s h =
    let blank = all_chars_mono (λ c. c == 32) is_space (strip s) space_is_space in
    not_empty_length (trim_by (λ c. c == 32) (strip s)) (
      ground (
        arith,
        blank,
        is_empty-trim_by is_space s,
        all_chars-trim_by is_space s,
        is_empty-trim_by (λ c. c == 32) (strip s),
      ))
