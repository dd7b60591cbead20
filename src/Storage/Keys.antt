-- ===== src/Storage/Keys.antt =====
-- The object keys of storage/presigned.py: no two objects share one.
use Prim.Native.String as Text
use Prim.Native.Char.{Char, code}
use text.Mathlib.TextLemmas.{append_cancel_left, cons-append, nil-append, head-eq_of_cons-eq}
use pid_docs.Prelude.{ℕ, String, Option, none, some, ◌≡◌, ◌≢◌, ◌==◌, ◌∙◌, sym, ap, arith}
use pid_docs.Prelude.Text.{split_at, split_at-append, lstrip_where}
use pid_docs.Storage.{drawing_object_key, export_object_key}

-- `ext.lstrip(".")`
abbrev pub extension : String → String
extension = lstrip_where (λ c. code c == 46)

pub data Object : Type 0 where
  drawing export : String → String → Object

unfoldable pub key : Object → String
unfolding drawing_object_key export_object_key
key (drawing id ext) = drawing_object_key id ext
key (export id ext) = export_object_key id ext

abbrev pub id : Object → String
id (drawing i ext) = i
id (export i ext) = i

-- The id has no slash and no dot, as the text of a UUID.
pub record IsPlain (o : Object) : Type 0 where
  pub no_slash : split_at b'/' (id o) ≡ none
  pub no_dot : split_at b'.' (id o) ≡ none

-- Of one kind, with one id and one extension.
abbrev pub Alike : Object → Object → Type 0
Alike (drawing i e) (drawing j f) = (i ≡ j) × (extension e ≡ extension f)
Alike (export i e) (export j f) = (i ≡ j) × (extension e ≡ extension f)
Alike _ _ = ⊥

split_inj :
    (d : Char) (p q r s : String)
    → split_at (code d) p ≡ none
    → split_at (code d) q ≡ none
    → Text.◌++◌ p (Text.◌∷◌ d r) ≡ Text.◌++◌ q (Text.◌∷◌ d s)
    → (p ≡ q) × (r ≡ s)
split_inj d p q r s f g e =
    let same : ◌≡◌ {A = Option (String × String)} (some (p, r)) (some (q, s)) =
      sym (split_at-append d p r f) ∙ ap (split_at (code d)) e ∙ split_at-append d q s g in
    ground arith

slash : (x : String) → Text.◌++◌ "/original." x ≡ Text.◌∷◌ "/" (Text.◌++◌ "original." x)
slash x = cons-append "/" "original." x

dot : (x : String) → Text.◌++◌ "." x ≡ Text.◌∷◌ "." x
dot x = cons-append "." "" x ∙ ap (λ (s : String). Text.◌∷◌ "." s) (nil-append x)

-- A key of a drawing begins with another letter than one of an export.
kinds_apart : (x y : String) → Text.◌++◌ "drawings/" x ≢ Text.◌++◌ "exports/" y
kinds_apart x y e =
    let heads : ◌≡◌ {A = Char} "d" "e" =
      head-eq_of_cons-eq (sym (cons-append "d" "rawings/" x) ∙ e ∙ cons-append "e" "xports/" y) in
    let codes : ◌≡◌ {A = ℕ} 100 101 = ap code heads in absurd (omega arith)

-- Two objects with one key are of one kind and have one id and, but for its leading dots, one extension.
pub key_inj : (a b : Object) → IsPlain a → IsPlain b → key a ≡ key b → Alike a b
unfolding key
key_inj (drawing i e) (drawing j f) p q h =
    let (same, rest) =
      split_inj "/" i j (Text.◌++◌ "original." (extension e)) (Text.◌++◌ "original." (extension f))
        p.no_slash q.no_slash
        (ap (Text.◌++◌ i) (sym (slash (extension e)))
          ∙ append_cancel_left "drawings/" _ _ h
          ∙ ap (Text.◌++◌ j) (slash (extension f))) in
    (same, append_cancel_left "original." _ _ rest)
key_inj (export i e) (export j f) p q h =
    split_inj "." i j (extension e) (extension f) p.no_dot q.no_dot (
      ap (Text.◌++◌ i) (sym (dot (extension e)))
      ∙ append_cancel_left "exports/" _ _ h
      ∙ ap (Text.◌++◌ j) (dot (extension f)))
key_inj (drawing i e) (export j f) p q h = kinds_apart _ _ h
key_inj (export i e) (drawing j f) p q h = kinds_apart _ _ (sym h)
