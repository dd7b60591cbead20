-- ===== src/Workers/Templates/Bodies.antt =====
-- What the recipient of an email finds in its bodies (workers/notification/templates.py).
use Prim.Native.Char.{Char}
use Prim.Native.String.{◌++◌}
use Prim.Native.String.append
use pid_docs.Prelude.{String, ◌≡◌, sym, ap, ◌∙◌, some, Option-cases, inl, inr, arith}
use pid_docs.Workers.Templates.{
  EmailContent, app_base_url, verify_path, reset_path, build_verification_email,
  build_password_reset_email, Calendar, format_grace_period_end, grace_day1, grace_day6,
  build_grace_day1_email, build_grace_day6_email,
}

-- The text `part` stands somewhere in `s`.
abbrev pub Contains : String → String → Type 0
Contains part s = (a : String) × (b : String) × (s ≡ a ++ part ++ b)

text_nil : (t : String) → String.[] ++ t ≡ t
text_nil t = λ i. append.nil t i

text_cons : (c : Char) (s t : String) → String.◌∷◌ c s ++ t ≡ String.◌∷◌ c (s ++ t)
text_cons c s t = λ i. append.cons c s t i

text_append_assoc : (a b c : String) → (a ++ b) ++ c ≡ a ++ b ++ c
text_append_assoc String.[] b c = cc (text_nil b, text_nil (b ++ c))
text_append_assoc (String.◌∷◌ d a) b c =
    cc (text_append_assoc a b c, text_cons d a b, text_cons d (a ++ b) c, text_cons d a (b ++ c))

-- It stands at the start,
Contains-head : (part b : String) → Contains part (part ++ b)
Contains-head part b = (String.[], b, sym (text_nil (part ++ b)))

-- or behind a text that comes first.
Contains-append : (part x s : String) → Contains part s → Contains part (x ++ s)
Contains-append part x s (a, b, e) =
    (x ++ a, b, ap (λ (t : String). x ++ t) e ∙ sym (text_append_assoc x a (part ++ b)))

Contains-second : (part a rest : String) → Contains part (a ++ part ++ rest)
Contains-second part a rest = Contains-append part a _ (Contains-head part rest)

Contains-fourth : (part a b c rest : String) → Contains part (a ++ b ++ c ++ part ++ rest)
Contains-fourth part a b c rest =
    Contains-append part a _ (Contains-append part b _ (Contains-second part c rest))

-- Both bodies of the mail have the link and the name, verbatim.
abbrev pub Shows : String → String → EmailContent → Type 0
Shows link display_name mail =
    Contains link mail.html_body
    × Contains link mail.plain_text_body
    × Contains display_name mail.html_body
    × Contains display_name mail.plain_text_body

-- The verification and the reset email have the link with the token, and the name, in both of their
-- bodies, each of them verbatim: whatever the name is, it stands in the HTML with no character escaped.
pub token_emails-Shows :
    (display_name token : String)
    → Shows
        (app_base_url ++ verify_path ++ "?token=" ++ token)
        display_name
        (build_verification_email display_name token)
      × Shows
          (app_base_url ++ reset_path ++ "?token=" ++ token)
          display_name
          (build_password_reset_email display_name token)
unfolding build_verification_email build_password_reset_email
token_emails-Shows display_name token = (
  (
    Contains-fourth _ _ _ _ _,
    Contains-fourth _ _ _ _ _,
    Contains-second _ _ _,
    Contains-second _ _ _,
  ),
  (
    Contains-fourth _ _ _ _ _,
    Contains-fourth _ _ _ _ _,
    Contains-second _ _ _,
    Contains-second _ _ _,
  ),
)

grace_day1-Shows :
    (display_name end_human : String)
    → Shows end_human display_name (grace_day1 display_name end_human)
unfolding grace_day1
grace_day1-Shows display_name end_human = (
  Contains-fourth _ _ _ _ _,
  Contains-fourth _ _ _ _ _,
  Contains-second _ _ _,
  Contains-second _ _ _,
)

grace_day6-Shows :
    (display_name end_human : String)
    → Shows end_human display_name (grace_day6 display_name end_human)
unfolding grace_day6
grace_day6-Shows display_name end_human = (
  Contains-fourth _ _ _ _ _,
  Contains-fourth _ _ _ _ _,
  Contains-second _ _ _,
  Contains-second _ _ _,
)

-- A grace-period email that is built has parsed the end of the period, and shows it, in words, and the
-- name in both of its bodies.
pub grace_emails-Shows :
    (calendar : Calendar) (display_name grace_period_end : String) (day1 day6 : EmailContent)
    → build_grace_day1_email calendar display_name grace_period_end ≡ some day1
    → build_grace_day6_email calendar display_name grace_period_end ≡ some day6
    → (end_human : String) × (format_grace_period_end calendar grace_period_end ≡ some end_human)
      × Shows end_human display_name day1
      × Shows end_human display_name day6
unfolding build_grace_day1_email build_grace_day6_email
grace_emails-Shows calendar display_name grace_period_end day1 day6 h k =
    elim (Option-cases (format_grace_period_end calendar grace_period_end)) [
      | inl e ↦ absurd (ground arith)
      | inr (end_human, e) ↦
          let one : day1 ≡ grace_day1 display_name end_human = ground arith in
          let six : day6 ≡ grace_day6 display_name end_human = ground arith in
          (
            end_human,
            e,
            rw one (grace_day1-Shows display_name end_human),
            rw six (grace_day6-Shows display_name end_human),
          )
    ]
