-- ===== src/Workers/Queues/Glob.antt =====
-- Patterns that end in a dot and a star, matched as Celery documents it: for tests.
use Prim.Native.Char.{Char, code}
use Prim.Native.String as Text
use text.Mathlib.TextEquality.{Char-path}
use text.Mathlib.TextLemmas.{
  nil-append, cons-append, tail-eq_of_cons-eq, append-ne-nil_of_right_ne-nil, cons-ne-nil,
}
use pid_docs.Prelude.{
  String, text_eq, eq_iff, Bool, true, false, not, ◌&&◌, ◌||◌, Option, none, some, ◌≡◌, ◌≢◌, refl,
  sym, ap, ◌∙◌, ◌==◌, arith, Bool-cases, inl, inr,
}
use pid_docs.Prelude.Text.{is_empty}
use pid_docs.Workers.Queues.{Celery, Below}

-- what follows the star's place
at_star : Char → String → Bool
at_star c s = code c == b'.' && not (is_empty s)

matches : String → String → Bool
unfolding at_star
matches Text.[] name = false
matches (Text.◌∷◌ d pattern) Text.[] = false
matches (Text.◌∷◌ d pattern) (Text.◌∷◌ c s) =
    (text_eq (Text.◌∷◌ d pattern) ".*" && at_star c s) || (code d == code c && matches pattern s)

no_pattern : (s : String) → matches "" s ≡ false
unfolding matches
no_pattern s = refl

bare_star : (s : String) → matches "*" s ≡ false
unfolding matches
bare_star Text.[] = refl
bare_star (Text.◌∷◌ c s) = ground arith

star_only : (c : Char) (s : String) → matches ".*" (Text.◌∷◌ c s) ≡ at_star c s
unfolding matches at_star
star_only c s = ground (arith, bare_star s)

longer : (p : String) → Text.◌++◌ p ".*" ≢ "*"
longer Text.[] e =
    let same : text_eq ".*" "*" ≡ true = (eq_iff _ _).1 (sym (nil-append ".*") ∙ e) in cc
longer (Text.◌∷◌ c p) e =
    append-ne-nil_of_right_ne-nil p {t = ".*"} (cons-ne-nil "." "*")
      (tail-eq_of_cons-eq (sym (cons-append c p ".*") ∙ e))

no_star : (d : Char) (p : String) → text_eq (Text.◌∷◌ d (Text.◌++◌ p ".*")) ".*" ≡ false
no_star d p = elim (Bool-cases (text_eq (Text.◌∷◌ d (Text.◌++◌ p ".*")) ".*")) [
  | inr f ↦ f
  | inl f ↦ absurd (longer p (tail-eq_of_cons-eq ((eq_iff _ _).0 f)))
]

step :
    (d c : Char) (p s : String)
    → matches (Text.◌++◌ (Text.◌∷◌ d p) ".*") (Text.◌∷◌ c s)
      ≡ (code d == code c && matches (Text.◌++◌ p ".*") s)
unfolding matches
step d c p s = rw (cons-append d p ".*") (rw (no_star d p) refl)

at_star-Below : (c : Char) (s : String) → at_star c s ≡ true → Below "" (Text.◌∷◌ c s)
unfolding at_star
at_star-Below c Text.[] e = absurd (ground arith)
at_star-Below c (Text.◌∷◌ x s) e =
    let same : c ≡ "." = Char-path c "." (ground arith) in (x, s, rw same (sym (nil-append _)))

unmatched_empty : (p : String) → matches p "" ≡ false
unfolding matches
unmatched_empty Text.[] = refl
unmatched_empty (Text.◌∷◌ d p) = refl

at_star_dot : (x : Char) (rest : String) → at_star "." (Text.◌∷◌ x rest) ≡ true
unfolding at_star
at_star_dot x rest = refl

below : (p n : String) → matches (Text.◌++◌ p ".*") n ≡ true → Below p n
below Text.[] Text.[] e = absurd (ground (arith, unmatched_empty (Text.◌++◌ "" ".*")))
below Text.[] (Text.◌∷◌ c s) e = at_star-Below c s (
    sym (star_only c s) ∙ ap (λ (q : String). matches q (Text.◌∷◌ c s)) (sym (nil-append ".*")) ∙ e)
below (Text.◌∷◌ d p) Text.[] e =
    absurd (ground (arith, unmatched_empty (Text.◌++◌ (Text.◌∷◌ d p) ".*")))
below (Text.◌∷◌ d p) (Text.◌∷◌ c s) e =
    let both : (code d == code c && matches (Text.◌++◌ p ".*") s) ≡ true = sym (step d c p s) ∙ e in
    let same : d ≡ c = Char-path d c (ground arith) in
    let (x, rest, f) = below p s (ground arith) in
    (x, rest, rw (← same) (ap (λ (t : String). Text.◌∷◌ d t) f ∙ sym (cons-append d p _)))

above :
    (p : String) (x : Char) (rest : String)
    → matches (Text.◌++◌ p ".*") (Text.◌++◌ p (Text.◌∷◌ "." (Text.◌∷◌ x rest))) ≡ true
above Text.[] x rest =
    rw nil-append (rw nil-append (star_only "." (Text.◌∷◌ x rest) ∙ at_star_dot x rest))
above (Text.◌∷◌ d p) x rest =
    rw (cons-append d p (Text.◌∷◌ "." (Text.◌∷◌ x rest)))
      (step d d p _ ∙ rw (above p x rest) (ground arith))

destination : Option String → Option String → Option String → String → String
destination (some q) declared routed d = q
destination none (some q) routed d = q
destination none none (some q) d = q
destination none none none d = d

pub celery : Celery
unfolding destination
celery = record {
  matches = matches;
  matches_star = λ p name. (below p name, λ (x, rest, e). rw e (above p x rest));
  destination = destination;
  named = λ q d declared routed. refl;
  declared = λ q d routed. refl;
  routed = λ q d. refl;
  default = λ d. refl;
}
