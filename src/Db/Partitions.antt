-- ===== src/Db/Partitions.antt =====
-- The monthly partitions of the audit log (db/models/audit_log.py) and those that the migration makes
-- (alembic/versions/0003_audit_partitions.py). A partition takes the rows from its first bound up to, and
-- without, its second one; a row that no partition takes is refused.
use pid_docs.Prelude.{
  ℕ, ◌+◌, ◌*◌, ◌≤◌, ◌∙◌, sym, ◌≡◌, ◌↔◌, refl, ◌⊎◌, inl, inr, Bool, true, false, not, ◌&&◌, ◌||◌,
  List, [], ◌∷◌, arith, ltb, ◌==◌, if◌then◌else◌,
}

pub record Date : Type 0 where
  pub year : ℕ
  pub month : ℕ
  pub day : ℕ

-- `a < b` on dates
abbrev pub before : Date → Date → Bool
before a b =
    ltb a.year b.year
    || (a.year == b.year && (ltb a.month b.month || (a.month == b.month && ltb a.day b.day)))

abbrev first : ℕ → ℕ → Date
first year month = record { year = year; month = month; day = 1 }

unfoldable pub partition_bounds : ℕ → ℕ → Date × Date
partition_bounds year month =
    (first year month, if month == 12 then first (year + 1) 1 else first year (month + 1))

-- the rows that `partition_ddl` makes the partition take
unfoldable pub in_partition : ℕ → ℕ → Date → Bool
unfolding partition_bounds
in_partition year month d =
    let (start, end) = partition_bounds year month in not (before d start) && before d end

unfoldable pub next_month : Date → ℕ × ℕ
next_month d = if d.month == 12 then (d.year + 1, 1) else (d.year, d.month + 1)

-- the partitions that the migration makes on the day `today`
unfoldable pub upgrade : Date → List (ℕ × ℕ)
unfolding next_month
upgrade today = (today.year, today.month) ∷ next_month today ∷ []

unfoldable pub is_taken : List (ℕ × ℕ) → Date → Bool
is_taken [] d = false
is_taken ((year, month) ∷ partitions) d = in_partition year month d || is_taken partitions d

-- A day of a calendar
pub record IsDay (d : Date) : Type 0 where
  pub months : (1 ≤ d.month) × (d.month ≤ 12)
  pub days : 1 ≤ d.day

-- Each day is taken by the partition of its own month, and by no other one.
pub in_partition_lem :
    (year month : ℕ) (d : Date)
    → 1 ≤ month
    → month ≤ 12
    → IsDay d
    → in_partition year month d ≡ (d.year == year && d.month == month)
unfolding in_partition
in_partition_lem year month d a b v = ground arith

next_month_valid : (d : Date) → IsDay d → (1 ≤ (next_month d).1) × ((next_month d).1 ≤ 12)
unfolding next_month
next_month_valid d v = ground arith

no_day :
    (x x1 x2 y y1 y2 : ℕ)
    → false ≡ (x == x1 && y == y1)
    → false ≡ (x == x2 && y == y2)
    → ((x ≡ x1) × (y ≡ y1)) ⊎ ((x ≡ x2) × (y ≡ y2))
    → false ≡ true
no_day x x1 x2 y y1 y2 e f (inl h) = absurd (ground arith)
no_day x x1 x2 y y1 y2 e f (inr h) = absurd (ground arith)

taken_twice :
    (a b : Bool) (x x1 x2 y y1 y2 : ℕ)
    → a ≡ (x == x1 && y == y1)
    → b ≡ (x == x2 && y == y2)
    → (a || (b || false) ≡ true) ↔ (((x ≡ x1) × (y ≡ y1)) ⊎ ((x ≡ x2) × (y ≡ y2)))
taken_twice true b x x1 x2 y y1 y2 e f = (λ h. inl (ground arith), λ h. refl)
taken_twice false true x x1 x2 y y1 y2 e f = (λ h. inr (ground arith), λ h. refl)
taken_twice false false x x1 x2 y y1 y2 e f =
    (λ h. absurd (ground arith), λ h. no_day x x1 x2 y y1 y2 e f h)

-- The partitions by the year and the month that `next_month` gives.
upgrade-next_month :
    (today d : Date)
    → IsDay today
    → IsDay d
    → (is_taken (upgrade today) d ≡ true) ↔ (
        ((d.year ≡ today.year) × (d.month ≡ today.month))
        ⊎ ((d.year ≡ (next_month today).0) × (d.month ≡ (next_month today).1)))
unfolding is_taken upgrade
upgrade-next_month today d t v =
    let (low, high) = next_month_valid today t in
    taken_twice _ _ _ _ _ _ _ _ (in_partition_lem today.year today.month d t.months.0 t.months.1 v)
      (in_partition_lem (next_month today).0 (next_month today).1 d low high v)

same_month :
    (y m y' m' : ℕ)
    → 1 ≤ m
    → m ≤ 12
    → 1 ≤ m'
    → m' ≤ 12
    → ((y ≡ y') × (m ≡ m')) ↔ (12 * y + m ≡ 12 * y' + m')
same_month y m y' m' a b c d = (λ (e, f). omega arith, λ h. (omega arith, omega arith))

next_month-index :
    (today : Date)
    → IsDay today
    → 12 * (next_month today).0 + (next_month today).1 ≡ 12 * today.year + today.month + 1
unfolding next_month
next_month-index today t = ground arith

-- The partitions that the migration makes on a day take the days of that day's month and of the month that follows
-- it in the calendar, January behind December, and no other day.
pub is_taken-upgrade :
    (today d : Date)
    → IsDay today
    → IsDay d
    → (is_taken (upgrade today) d ≡ true) ↔ (
        (12 * d.year + d.month ≡ 12 * today.year + today.month)
        ⊎ (12 * d.year + d.month ≡ 12 * today.year + today.month + 1))
is_taken-upgrade today d t v =
    let (low, high) = next_month_valid today t in
    let index = next_month-index today t in
    let (to, from) = upgrade-next_month today d t v in
    let this =
      same_month d.year d.month today.year today.month v.months.0 v.months.1 t.months.0
        t.months.1 in
    let next =
      same_month d.year d.month (next_month today).0 (next_month today).1 v.months.0 v.months.1 low
        high in
    (
      λ h. elim (to h) [ inl e ↦ inl (this.0 e) | inr e ↦ inr (next.0 e ∙ index) ],
      λ h. elim h [ inl e ↦ from (inl (this.1 e)) | inr e ↦ from (inr (next.1 (e ∙ sym index))) ],
    )
