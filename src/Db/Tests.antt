-- ===== src/Db/Tests.antt =====
-- Partitions at concrete days.
use pid_docs.Prelude.{◌+◌, ◌*◌, ◌≡◌, ◌↔◌, ◌⊎◌, true, arith}
use pid_docs.Db.Partitions.{Date, IsDay, upgrade, is_taken, is_taken-upgrade}

abbrev new_year : Date
new_year = record { year = 2026; month = 12; day = 31 }

abbrev spring : Date
spring = record { year = 2027; month = 2; day = 1 }

new_year-IsDay : IsDay new_year
new_year-IsDay = record { months = omega arith; days = omega arith }

spring-IsDay : IsDay spring
spring-IsDay = record { months = omega arith; days = omega arith }

is_taken-upgrade_example :
    (is_taken (upgrade new_year) spring ≡ true)
    ↔ ((12 * 2027 + 2 ≡ 12 * 2026 + 12) ⊎ (12 * 2027 + 2 ≡ 12 * 2026 + 12 + 1))
is_taken-upgrade_example = is_taken-upgrade new_year spring new_year-IsDay spring-IsDay
