-- ===== src/Prelude/Text.antt =====
-- Python's text methods over native strings, for texts of ASCII characters: `lower`, `strip`,
-- `lstrip`, `partition`, `startswith` and the truth of a text.
use Prim.Native.Nat.{ℕ, zero, suc, ◌+◌, ◌-◌, ◌%◌}
use Prim.Native.Char.{Char, IsScalar, char, code}
use Prim.Native.String.{String}
use Prim.Native.String as Text
use mathlib.Core.Option
use mathlib.Core.Option.{Option, none, some}
use mathlib.Core.Logic.{inl, inr}
use text.Mathlib.TextEquality.{Char-path}
use text.Mathlib.TextLemmas.{nil-append, cons-append}
use mathlib.Core.Path.{◌≡◌, refl, ap, sym, ◌∙◌}
use mathlib.Core.Bool.{Bool, true, false, ◌&&◌, ◌||◌}
use native.Mathlib.Omega.{arith}
use pid_docs.Prelude.Tests.{Bool-cases, Option-cases, leb, ◌==◌, if◌then◌else◌}

-- `not s`
abbrev pub is_empty : String → Bool
is_empty String.[] = true
is_empty (String.◌∷◌ c s) = false

pub letter-IsScalar : (k : ℕ) → IsScalar (97 + k % 26)
letter-IsScalar k = ground arith

-- the lower-case letter at a position of the alphabet
letter : ℕ → Char
letter k = char (97 + k % 26) (letter-IsScalar k)

lower_char : Char → Char
unfolding letter
lower_char c = if leb b'A' (code c) && leb (code c) b'Z' then letter (code c - b'A') else c

unfoldable pub lower : String → String
unfolding lower_char
lower String.[] = String.[]
lower (String.◌∷◌ c s) = String.◌∷◌ (lower_char c) (lower s)

lower_char_idem : (c : Char) → lower_char (lower_char c) ≡ lower_char c
unfolding lower_char
lower_char_idem c = ground arith

pub lower_idem : (s : String) → lower (lower s) ≡ lower s
unfolding lower
lower_idem String.[] = refl
lower_idem (String.◌∷◌ c s) = cc (lower_char_idem c, lower_idem s)

-- The code points of Python's white space, that of `str.isspace` and of `\s` on texts
unfoldable pub is_white : ℕ → Bool
is_white c =
    (leb 9 c && leb c 13)
    || ((leb 28 c && leb c 32)
        || (c == 133
            || (c == 160
                || (c == 5760
                    || ((leb 8192 c && leb c 8202)
                        || (c == 8232
                            || (c == 8233 || (c == 8239 || (c == 8287 || c == 12288)))))))))

is_space : Char → Bool
unfolding is_white
is_space c = is_white (code c)

-- `s.lstrip(chars)` for a test on characters
abbrev pub lstrip_where : (Char → Bool) → String → String
lstrip_where p String.[] = String.[]
lstrip_where p (String.◌∷◌ c s) = if p c then lstrip_where p s else String.◌∷◌ c s

abbrev pub rstrip_where : (Char → Bool) → String → String
rstrip_where p String.[] = String.[]
rstrip_where p (String.◌∷◌ c s) =
    let r = rstrip_where p s in if is_empty r && p c then String.[] else String.◌∷◌ c r

unfoldable pub strip : String → String
unfolding is_space
strip s = rstrip_where is_space (lstrip_where is_space s)

-- the parts of `s.partition(" ")` before and behind the first space
unfoldable pub partition : String → String × String
partition String.[] = (String.[], String.[])
partition (String.◌∷◌ c s) =
    let rest = partition s in if code c == 32 then (String.[], s) else (String.◌∷◌ c rest.0, rest.1)

text_methods :
    (lower "BeArer" ≡ "bearer")
    × (strip " a b\n" ≡ "a b")
    × (partition "Bearer x y" ≡ ("Bearer", "x y"))
    × (partition "Bearer" ≡ ("Bearer", ""))
unfolding lower strip partition
text_methods = (refl, refl, refl, refl)

-- `s[:n]`
unfoldable pub prefix : ℕ → String → String
prefix zero s = String.[]
prefix (suc n) String.[] = String.[]
prefix (suc n) (String.◌∷◌ c s) = String.◌∷◌ c (prefix n s)

-- `s.split("@", 1)[0]`
unfoldable pub until : String → String
until String.[] = String.[]
until (String.◌∷◌ c s) =
    let rest = until s in if code c == b'@' then String.[] else String.◌∷◌ c rest

-- the parts before and behind the first character with this code
unfoldable pub split_at : ℕ → String → Option (String × String)
split_at k String.[] = none
split_at k (String.◌∷◌ c s) =
    let rest = split_at k s in
    if code c == k
    then some (String.[], s)
    else Option.map (λ (p : String × String). (String.◌∷◌ c p.0, p.1)) rest

pub split_at-append :
    (d : Char) (p r : String)
    → split_at (code d) p ≡ none
    → split_at (code d) (Text.◌++◌ p (String.◌∷◌ d r)) ≡ some (p, r)
unfolding split_at
split_at-append d String.[] r e = rw (nil-append (String.◌∷◌ d r)) (ground arith)
split_at-append d (String.◌∷◌ c p) r e = elim (Bool-cases (code c == code d)) [
  | inl f ↦ absurd (ground arith)
  | inr f ↦ elim (Option-cases (split_at (code d) p)) [
    | inl n ↦ rw (cons-append c p) (rw f (rw (split_at-append d p r n) refl))
    | inr (x, n) ↦ absurd (ground arith)
  ]
]

pub append-split_at :
    (d : Char) (n h r : String)
    → split_at (code d) n ≡ some (h, r)
    → n ≡ Text.◌++◌ h (String.◌∷◌ d r)
unfolding split_at
append-split_at d String.[] h r e = cc
append-split_at d (String.◌∷◌ c n) h r e = elim (Bool-cases (code c == code d)) [
  | inl f ↦
      let same : c ≡ d = Char-path c d (ground arith) in
      let g : String.[] ≡ h = ground arith in
      let k : n ≡ r = ground arith in
      rw same (rw (← g) (rw (← k) (sym (nil-append (String.◌∷◌ d n)))))
  | inr f ↦ elim (Option-cases (split_at (code d) n)) [
    | inl n ↦ absurd (ground arith)
    | inr ((h', r'), q) ↦
        let g : String.◌∷◌ c h' ≡ h = ground arith in
        let k : r' ≡ r = ground arith in
        rw (← g) (
          rw (← k) (
            ap (λ (s : String). String.◌∷◌ c s) (append-split_at d n h' r' q)
            ∙ sym (cons-append c h' (String.◌∷◌ d r'))))
  ]
]
