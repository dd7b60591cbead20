-- ===== src/Consent/Tests.antt =====
-- Consent at concrete inputs.
use pid_docs.Prelude.{ℕ, Bool, true, false, ◌≡◌, refl}
use pid_docs.Consent.{user_record}
use pid_docs.Consent.Write.{records}
use pid_docs.Consent.Race.{Who, one, two, done, State, Reach, begun, Reach-two_records}
use pid_docs.Samples.{consents}

abbrev opted : Who → Bool
opted one = true
opted two = false

abbrev fresh : Who → ℕ
fresh one = 11
fresh two = 12

Reach-two_records_example :
    (u : State) × Reach 3 5 opted fresh (begun 3 5 opted fresh consents) u
    × (u.first ≡ done)
    × (u.second ≡ done)
    × (records 3 u.consents ≡ 2)
unfolding user_record
Reach-two_records_example = Reach-two_records 3 5 opted fresh consents refl
