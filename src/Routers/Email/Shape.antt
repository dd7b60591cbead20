-- ===== src/Routers/Email/Shape.antt =====
-- What the pattern of api/routers/auth.py accepts, as texts put together from parts.
use pid_docs.Prelude.{
  ℕ, String, ◌≡◌, ◌≢◌, ◌↔◌, ◌⊎◌, refl, inl, inr, true, false, List, [], ◌∷◌, ◌++◌, ◌==◌, arith, All,
  Bool-cases,
}
use pid_docs.Prelude.Text.{is_white}
use pid_docs.Routers.Email.{
  codes, is_word, start, name, at_sign, domain, dot, full, accepts, valid_email,
}

dot-word : is_word b'.' ≡ true
unfolding is_word is_white
dot-word = refl

at_sign-word : is_word b'@' ≡ false
unfolding is_word is_white
at_sign-word = refl

-- Characters that are neither `@` nor white space
abbrev pub Words : List ℕ → Type 0
Words s = All (λ (c : ℕ). is_word c ≡ true) s

-- The end of the text, or a last line feed
abbrev pub Ending : List ℕ → Type 0
Ending s = (s ≡ []) ⊎ (s ≡ 10 ∷ [])

-- A name, an `@`, a host, a dot and a top, none of the three empty, all of them of such characters
pub record IsEmail (s : List ℕ) : Type 0 where
  pub local : List ℕ
  pub host : List ℕ
  pub top : List ℕ
  pub ending : List ℕ
  pub shape : s ≡ local ++ b'@' ∷ (host ++ b'.' ∷ (top ++ ending))
  pub words : Words local × Words host × Words top
  pub filled : (local ≢ []) × (host ≢ []) × (top ≢ [])
  pub ended : Ending ending

full-append : (w s : List ℕ) → Words w → accepts full (w ++ s) ≡ accepts full s
unfolding accepts
full-append [] s h = refl
full-append (c ∷ w) s h = ground (arith, full-append w s h.1)

dot-append : (c : ℕ) (w s : List ℕ) → Words (c ∷ w) → accepts dot ((c ∷ w) ++ s) ≡ accepts full s
unfolding accepts
dot-append c w s h = ground (arith, full-append w s h.1)

full-Ending : (e : List ℕ) → Ending e → accepts full e ≡ true
unfolding accepts
full-Ending e (inl n) = rw n refl
full-Ending e (inr n) = rw n refl

-- Behind a first character of the domain: a dot, a character and the ending
domain-append :
    (w : List ℕ) (c : ℕ) (t s : List ℕ)
    → Words w
    → Words (c ∷ t)
    → accepts domain (w ++ b'.' ∷ ((c ∷ t) ++ s)) ≡ accepts full s
unfolding accepts
domain-append [] c t s h k = dot-append c t s k
domain-append (x ∷ []) c t s h k = ground (arith, dot-append c t s k, full-append (c ∷ t) s k)
domain-append (x ∷ y ∷ w) c t s h k = ground (
  arith,
  domain-append (y ∷ w) c t s h.1 k,
  dot-append y w (b'.' ∷ ((c ∷ t) ++ s)) h.1,
  dot-append b'.' (c ∷ t) s (dot-word, k),
  full-append (b'.' ∷ c ∷ t) s (dot-word, k),
)

name-append : (w s : List ℕ) → Words w → accepts name (w ++ b'@' ∷ s) ≡ accepts at_sign s
unfolding accepts
name-append [] s h = refl
name-append (c ∷ w) s h = ground (arith, name-append w s h.1)

IsEmail-accepts :
    (local host top e : List ℕ)
    → Words local
    → Words host
    → Words top
    → local ≢ []
    → host ≢ []
    → top ≢ []
    → Ending e
    → accepts start (local ++ b'@' ∷ (host ++ b'.' ∷ (top ++ e))) ≡ true
unfolding accepts
IsEmail-accepts [] host top e a b c l h t end = absurd (l refl)
IsEmail-accepts (x ∷ local) [] top e a b c l h t end = absurd (h refl)
IsEmail-accepts (x ∷ local) (y ∷ host) [] e a b c l h t end = absurd (t refl)
IsEmail-accepts (x ∷ local) (y ∷ host) (z ∷ top) e a b c l h t end = ground (
  arith,
  name-append local ((y ∷ host) ++ b'.' ∷ ((z ∷ top) ++ e)) a.1,
  domain-append host z top e b.1 c,
  full-Ending e end,
)

-- What is left to read, from each state, of a text that is accepted.
abbrev Tail : List ℕ → Type 0
Tail s = (w : List ℕ) × (e : List ℕ) × (s ≡ w ++ e) × Words w × Ending e

abbrev Top : List ℕ → Type 0
Top s = (c : ℕ) × (t : List ℕ) × (s ≡ c ∷ t) × (is_word c ≡ true) × Tail t

abbrev Domain : List ℕ → Type 0
Domain s = (w : List ℕ) × (t : List ℕ) × (s ≡ w ++ b'.' ∷ t) × Words w × Top t

abbrev Host : List ℕ → Type 0
Host s = (c : ℕ) × (t : List ℕ) × (s ≡ c ∷ t) × (is_word c ≡ true) × Domain t

abbrev Name : List ℕ → Type 0
Name s = (w : List ℕ) × (t : List ℕ) × (s ≡ w ++ b'@' ∷ t) × Words w × Host t

accepts-line_feed :
    (c : ℕ) (s : List ℕ) → is_word c ≡ false → accepts full (c ∷ s) ≡ true → c ∷ s ≡ 10 ∷ []
unfolding accepts
accepts-line_feed c [] other h = ground arith
accepts-line_feed c (d ∷ s) other h = absurd (ground arith)

accepts-full : (s : List ℕ) → accepts full s ≡ true → Tail s
unfolding accepts
accepts-full [] h = ([], [], refl, tt, inl refl)
accepts-full (c ∷ s) h = elim (Bool-cases (is_word c)) [
  | inl word ↦
      let (w, e, eq, ws, end) = accepts-full s (ground arith) in
      (c ∷ w, e, ground arith, (word, ws), end)
  | inr other ↦ ([], c ∷ s, refl, tt, inr (accepts-line_feed c s other (ground arith)))
]

accepts-dot : (s : List ℕ) → accepts dot s ≡ true → Top s
unfolding accepts
accepts-dot [] h = absurd (ground arith)
accepts-dot (c ∷ s) h = elim (Bool-cases (is_word c)) [
  | inl word ↦ (c, s, refl, word, accepts-full s (ground arith))
  | inr other ↦ absurd (ground arith)
]

accepts-domain : (s : List ℕ) → accepts domain s ≡ true → Domain s
unfolding accepts
accepts-domain [] h = absurd (ground arith)
accepts-domain (c ∷ s) h = elim (Bool-cases (is_word c)) [
  | inr other ↦ absurd (ground arith)
  | inl word ↦ elim (Bool-cases (c == 46)) [
    | inl is_dot ↦ ([], s, ground arith, tt, accepts-dot s (ground arith))
    | inr no_dot ↦
        let (w, t, eq, ws, top) = accepts-domain s (ground arith) in
        (c ∷ w, t, ground arith, (word, ws), top)
  ]
]

accepts-at_sign : (s : List ℕ) → accepts at_sign s ≡ true → Host s
unfolding accepts
accepts-at_sign [] h = absurd (ground arith)
accepts-at_sign (c ∷ s) h = elim (Bool-cases (is_word c)) [
  | inl word ↦ (c, s, refl, word, accepts-domain s (ground arith))
  | inr other ↦ absurd (ground arith)
]

accepts-name : (s : List ℕ) → accepts name s ≡ true → Name s
unfolding accepts
accepts-name [] h = absurd (ground arith)
accepts-name (c ∷ s) h = elim (Bool-cases (is_word c)) [
  | inl word ↦
      let (w, t, eq, ws, host) = accepts-name s (ground arith) in
      (c ∷ w, t, ground arith, (word, ws), host)
  | inr other ↦ ([], s, ground arith, tt, accepts-at_sign s (ground arith))
]

cons_ne : (c : ℕ) (s : List ℕ) → c ∷ s ≢ []
cons_ne c s h = cc

Name-IsEmail : (c : ℕ) (s : List ℕ) → is_word c ≡ true → Name s → IsEmail (c ∷ s)
Name-IsEmail c s word
      (
        w,
        t,
        named,
        ws,
        (h, d, at_host, word_h, (v, r, dotted, vs, (x, q, topped, word_x, (u, e, rest, us, end)))),
      ) =
    record {
      local = c ∷ w;
      host = h ∷ v;
      top = x ∷ u;
      ending = e;
      shape = cc;
      words = ((word, ws), (word_h, vs), (word_x, us));
      filled = (cons_ne c w, cons_ne h v, cons_ne x u);
      ended = end;
    }

accepts-IsEmail : (s : List ℕ) → accepts start s ≡ true → IsEmail s
unfolding accepts
accepts-IsEmail [] h = absurd (ground arith)
accepts-IsEmail (c ∷ s) h = elim (Bool-cases (is_word c)) [
  | inr other ↦ absurd (ground arith)
  | inl word ↦ Name-IsEmail c s word (accepts-name s (ground arith))
]

-- The shape check accepts an address exactly if it is a non-empty name, an `@`, a non-empty host, a dot and a
-- non-empty top, of characters other than `@` and white space, with at most a line feed behind.
pub valid_email_iff : (email : String) → (valid_email email ≡ true) ↔ IsEmail (codes email)
unfolding valid_email
valid_email_iff email = (
  accepts-IsEmail (codes email),
  λ p. rw p.shape (
      IsEmail-accepts p.local p.host p.top p.ending p.words.0 p.words.1 p.words.2 p.filled.0
        p.filled.1 p.filled.2 p.ended),
)
