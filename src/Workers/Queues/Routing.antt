-- ===== src/Workers/Queues/Routing.antt =====
-- Where a message lands whose call and task name no queue, against the part of its name before the first dot.
use Prim.Native.String as Text
use pid_docs.Prelude.{
  String, text_eq, eq_iff, Bool, true, false, not, ◌&&◌, ◌||◌, Option, none, some, List, [], ◌∷◌,
  ◌≡◌, ◌↔◌, refl, sym, inl, inr, if◌then◌else◌, arith, Option-cases, get_or,
}
use pid_docs.Prelude.Text.{is_empty, split_at, split_at-append, append-split_at}
use pid_docs.Workers.Queues.{
  Celery, Below, queue_ingest, queue_names, task_default_queue, first_route, queue_of,
}

is_member : String → List String → Bool
is_member s [] = false
is_member s (x ∷ xs) = text_eq s x || is_member s xs

-- The queue called like the part of the name before its first dot, if something follows the dot.
unfoldable pub owner : String → String
unfolding is_member
owner name = elim (split_at b'.' name) [
  | none ↦ queue_ingest
  | some (head, rest) ↦
      if is_member head queue_names && not (is_empty rest) then head else queue_ingest
]

is_below : String → String → Bool
is_below p name = elim (split_at b'.' name) [
  | none ↦ false
  | some (head, rest) ↦ text_eq head p && not (is_empty rest)
]

Bool_ext {ℓ} : {P : Type ℓ} (a b : Bool) → (a ≡ true) ↔ P → (b ≡ true) ↔ P → a ≡ b
Bool_ext true b f g = sym (g.1 (f.0 refl))
Bool_ext false true f g = f.1 (g.0 refl)
Bool_ext false false f g = refl

Below-found :
    (p name head rest : String)
    → split_at b'.' name ≡ some (head, rest)
    → text_eq head p && not (is_empty rest) ≡ true
    → Below p name
Below-found p name head Text.[] e h = absurd (ground arith)
Below-found p name head (Text.◌∷◌ c rest) e h =
    let same : head ≡ p = (eq_iff head p).0 (ground arith) in
    (c, rest, rw (← same) (append-split_at "." name head (Text.◌∷◌ c rest) e))

-- A pattern matches exactly the names whose part before the first dot is its own, if that has no dot.
is_below_iff : (p name : String) → split_at b'.' p ≡ none → (is_below p name ≡ true) ↔ Below p name
unfolding is_below
is_below_iff p name plain = (
  λ h. elim (Option-cases (split_at b'.' name)) [
    | inl n ↦ absurd (ground arith)
    | inr ((head, rest), e) ↦ Below-found p name head rest e (ground arith)
  ],
  λ (c, rest, e).
      rw e (rw (is_below, split_at-append "." p (Text.◌∷◌ c rest) plain, (eq_iff p p).1 refl) refl),
)

abbrev below_any : String → List String → Option String
below_any name [] = none
below_any name (q ∷ qs) = if is_below q name then some q else below_any name qs

below_any-owner :
    (name : String) → get_or (below_any name queue_names) task_default_queue ≡ owner name
unfolding owner is_below is_member
below_any-owner name = elim (Option-cases (split_at b'.' name)) [
  | inl e ↦ ground arith
  | inr ((head, rest), e) ↦ ground (
    arith,
    eq_iff head "ingest",
    eq_iff head "scan",
    eq_iff head "ml_inference",
    eq_iff head "export",
    eq_iff head "gdpr_erasure",
    eq_iff head "notification",
  )
]

module _ (celery : Celery) (name : String) where
  matches_lem :
      (p : String)
      → split_at b'.' p ≡ none
      → celery.matches (Text.◌++◌ p ".*") name ≡ is_below p name
  matches_lem p plain = Bool_ext _ _ (celery.matches_star p name) (is_below_iff p name plain)

  destination_lem :
      (routed : Option String)
      → celery.destination none none routed task_default_queue ≡ get_or routed task_default_queue
  destination_lem none = celery.default _
  destination_lem (some q) = celery.routed q _

  -- A message whose call and task name no queue lands on the queue that is called like the part of its name
  -- before the first dot, if something follows the dot, and on `ingest` if there is no such queue:
  -- the patterns exclude one another, so their order does not matter.
  pub queue_of-owner : queue_of celery none none name ≡ owner name
  unfolding queue_of first_route split_at
  queue_of-owner = rw (destination_lem _) (
      rw (matches_lem "ingest" refl) (
        rw (matches_lem "scan" refl) (
          rw (matches_lem "ml_inference" refl) (
            rw (matches_lem "export" refl) (
              rw (matches_lem "gdpr_erasure" refl)
                (rw (matches_lem "notification" refl) (below_any-owner name)))))))
