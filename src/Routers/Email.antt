-- ===== src/Routers/Email.antt =====
-- The shape check of an address, `^[^@\s]+@[^@\s]+\.[^@\s]+$` with `re.match` (api/routers/auth.py), as the
-- automaton that reads it from the left, and what it accepts. `$` also matches before a last line feed.
pub mod Shape
use Prim.Native.Char.{code}
use pid_docs.Prelude.Text.{is_white}
use pid_docs.Prelude.{
  ℕ, String, ◌≡◌, ◌≢◌, refl, ◌⊎◌, inl, inr, Bool, true, false, not, ◌&&◌, ◌||◌, List, [], ◌∷◌, ◌++◌,
  ◌==◌, leb, ltb, arith, if◌then◌else◌, All,
}

-- the code points of a text
abbrev pub codes : String → List ℕ
codes String.[] = []
codes (String.◌∷◌ c s) = code c ∷ codes s

-- `[^@\s]`
unfoldable pub is_word : ℕ → Bool
unfolding is_white
is_word c = not (c == 64 || is_white c)

abbrev is_nil : List ℕ → Bool
is_nil [] = true
is_nil (c ∷ s) = false

-- How much of the pattern has been read: the start, some of the local part, the `@`, some of the domain
-- without an inner dot, the domain up to an inner dot, and a domain with a character behind such a dot.
pub data Read : Type 0 where
  start name at_sign domain dot full : Read

after : Read → ℕ → Read
after start c = name
after name c = name
after at_sign c = domain
after domain c = if c == 46 then dot else domain
after dot c = full
after full c = full

is_at_name : Read → Bool
is_at_name name = true
is_at_name r = false

is_full : Read → Bool
is_full full = true
is_full r = false

-- Does the rest of the text match the rest of the pattern?
pub accepts : Read → List ℕ → Bool
unfolding is_word after is_at_name is_full
accepts r [] = is_full r
accepts r (c ∷ s) =
    let rest = accepts (if is_word c then after r c else at_sign) s in
    if is_word c || (c == 64 && is_at_name r) then rest else c == 10 && (is_full r && is_nil s)

unfoldable pub valid_email : String → Bool
unfolding accepts
valid_email email = accepts start (codes email)
