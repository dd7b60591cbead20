-- ===== src/Consent/Race.antt =====
-- Two requests that run `set_user_consent` at the same time for one user: `SELECT ... FOR UPDATE` locks
-- the row that it finds, and nothing if it finds none; the write and the commit follow.
use pid_docs.Prelude.{
  ℕ, ◌≡◌, ◌≢◌, refl, Bool, true, false, none, some, List, [], ◌∷◌, ◌++◌, arith, is_some,
  Option-cases, inl, inr,
}
use pid_docs.Db.{MlTrainingConsent}
use pid_docs.Db.Tables.{update}
use pid_docs.Consent.{user_record, new_record, rewritten, set_user_consent}
use pid_docs.Consent.Write.{
  records, has_record-rewritten, records-new, records-rewritten, records-none,
}

pub data Who : Type 0 where
  one two : Who

-- Where a request stands: before its read, behind a read that found nothing, holding the lock of the
-- row that it found, or committed.
pub data Phase : Type 0 where
  start saw_none done : Phase
  locked : MlTrainingConsent → Phase

pub record State : Type 0 where
  pub consents : List MlTrainingConsent
  pub first : Phase
  pub second : Phase

abbrev pub phase : Who → State → Phase
phase one s = s.first
phase two s = s.second

abbrev pub move : Who → Phase → State → State
move one p s = record s { first = p }
move two p s = record s { second = p }

abbrev pub other : Who → Who
other one = two
other two = one

abbrev pub is_locked : Phase → Bool
is_locked (locked c) = true
is_locked _ = false

abbrev pub store : List MlTrainingConsent → State → State
store cs s = record s { consents = cs }

module _ (uid now : ℕ) (opted_in : Who → Bool) (fresh : Who → ℕ) where
  pub data Step (s u : State) : Type 0 where
    read_none :
        (i : Who)
        → phase i s ≡ start
        → user_record uid s.consents ≡ none
        → u ≡ move i saw_none s
        → Step s u
    read_row :
        (i : Who) (c : MlTrainingConsent)
        → phase i s ≡ start
        → user_record uid s.consents ≡ some c
        → is_locked (phase (other i) s) ≡ false
        → u ≡ move i (locked c) s
        → Step s u
    insert :
        (i : Who)
        → phase i s ≡ saw_none
        → u ≡ store (s.consents ++ new_record (fresh i) now uid (opted_in i) ∷ []) (move i done s)
        → Step s u
    write :
        (i : Who) (c : MlTrainingConsent)
        → phase i s ≡ locked c
        → u
          ≡ store
              (update
                (λ (r : MlTrainingConsent). r.id)
                c.id
                (rewritten now (opted_in i))
                s.consents)
              (move i done s)
        → Step s u

  pub data Reach (s : State) : State → Type 0 where
    here : Reach s s
    next : {t u : State} → Reach s t → Step t u → Reach s u

  -- Both requests are past their reads without having missed an existing row.
  abbrev Counted : ℕ → State → Type 0
  Counted n s =
      (records uid s.consents ≡ n)
      × (s.first ≢ saw_none)
      × (s.second ≢ saw_none)
      × (is_some (user_record uid s.consents) ≡ true)

  Step-Counted : {n : ℕ} {s u : State} → Step s u → Counted n s → Counted n u
  Step-Counted (read_none one p h e) c = ground arith
  Step-Counted (read_none two p h e) c = ground arith
  Step-Counted (read_row one r p h l e) c = ground arith
  Step-Counted (read_row two r p h l e) c = ground arith
  Step-Counted (insert one p e) c = ground arith
  Step-Counted (insert two p e) c = ground arith
  Step-Counted {s = s} (write one r p e) c = ground (
    arith,
    records-rewritten uid now (opted_in one) r.id s.consents,
    has_record-rewritten uid now (opted_in one) r.id s.consents,
  )
  Step-Counted {s = s} (write two r p e) c = ground (
    arith,
    records-rewritten uid now (opted_in two) r.id s.consents,
    has_record-rewritten uid now (opted_in two) r.id s.consents,
  )

  Reach-Counted : {n : ℕ} {s u : State} → Counted n s → Reach s u → Counted n u
  Reach-Counted c here = c
  Reach-Counted c (next r st) = Step-Counted st (Reach-Counted c r)

  abbrev pub begun : List MlTrainingConsent → State
  begun cs = record { consents = cs; first = start; second = start }

  -- A request whose read and write follow each other does what `set_user_consent` does.
  pub Reach-set_user_consent :
      (cs : List MlTrainingConsent)
      → Reach (begun cs) (
          store (set_user_consent (fresh one) now uid (opted_in one) cs) (move one done (begun cs)))
  unfolding set_user_consent
  Reach-set_user_consent cs = elim (Option-cases (user_record uid cs)) [
    | inl e ↦
        rw (e, set_user_consent)
          (next (next here (read_none one refl e refl)) (insert one refl refl))
    | inr (c, e) ↦
        rw (e, set_user_consent)
          (next (next here (read_row one c refl e refl refl)) (write one c refl refl))
  ]

  -- If the user has a record when the two requests start, then at every moment of every interleaving
  -- he has as many records as before.
  pub Reach-one_record :
      (cs : List MlTrainingConsent) (u : State)
      → user_record uid cs ≢ none
      → Reach (begun cs) u
      → records uid u.consents ≡ records uid cs
  Reach-one_record cs u found r =
      (Reach-Counted (refl, ground arith, ground arith, ground arith) r).0

  abbrev pub row : Who → MlTrainingConsent
  row i = new_record (fresh i) now uid (opted_in i)

  -- If the user has no record when the two requests start, both may miss it and both may insert: an
  -- interleaving in which both have committed leaves two records of the user.
  pub Reach-two_records :
      (cs : List MlTrainingConsent)
      → user_record uid cs ≡ none
      → (u : State) × Reach (begun cs) u
        × (u.first ≡ done)
        × (u.second ≡ done)
        × (records uid u.consents ≡ 2)
  Reach-two_records cs missing = (
    record { consents = (cs ++ row one ∷ []) ++ row two ∷ []; first = done; second = done },
    next
        (next (next (next here (read_none one refl missing refl)) (read_none two refl missing refl))
          (insert one refl refl))
        (insert two refl refl),
    refl,
    refl,
    omega (
      arith,
      records-new uid now (opted_in one) (fresh one) cs,
      records-new uid now (opted_in two) (fresh two) (cs ++ row one ∷ []),
      records-none uid cs missing,
    ),
  )
