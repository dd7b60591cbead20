-- ===== src/Storage/Hashing.antt =====
-- The streamed hash (storage/hashing.py) and the blocklist (storage/blocklist.py).
use pid_docs.Prelude.{
  ℕ, zero, suc, ◌≤◌, String, text_eq, true, Option, none, some, List, [], ◌∷◌, ◌++◌, ◌≡◌, ◌∙◌, refl,
  sym, ap, ◌↔◌, eq_iff, eq_refl, Bool-cases, inl, inr, arith, length, take, drop, min, take-drop,
  length-drop,
}
use pid_docs.Prelude.Text.{lower, strip}
use pid_docs.Storage.{
  Digest, hash_loop, compute_sha256_stream, verify_object_sha256, is_hash_blocked, probe,
}

min-suc : (m n : ℕ) → min (suc m) (suc n) ≡ suc (min m n)
min-suc m n = omega arith

module _ {B : Type 0} (sha256 : Digest B) (short : ℕ → ℕ) where
  -- a round that reads `n` bytes
  abbrev after_read : ℕ → ℕ → sha256.State → List B → ℕ → sha256.State
  after_read fuel chunk_size d bytes n = elim (take n bytes) [
    | [] ↦ d
    | b ∷ bs ↦
        hash_loop sha256 short fuel (suc chunk_size) (sha256.update d (b ∷ bs)) (drop n bytes)
  ]

  hash_loop_lem :
      (fuel chunk_size : ℕ) (d : sha256.State) (bytes : List B)
      → suc (length bytes) ≤ fuel
      → hash_loop sha256 short fuel (suc chunk_size) d bytes ≡ sha256.update d bytes
  unfolding hash_loop
  hash_loop_lem zero chunk_size d bytes enough = ground arith
  hash_loop_lem (suc fuel) chunk_size d [] enough =
      ap (after_read fuel chunk_size d []) (min-suc chunk_size (short fuel))
      ∙ sym (sha256.update_empty d)
  hash_loop_lem (suc fuel) chunk_size d (b ∷ bytes) enough =
      let n = min chunk_size (short fuel) in
      ap (after_read fuel chunk_size d (b ∷ bytes)) (min-suc chunk_size (short fuel))
      ∙ hash_loop_lem fuel chunk_size (sha256.update d (b ∷ take n bytes)) (drop n bytes)
          (omega (arith, length-drop n bytes))
      ∙ sha256.update_append d (b ∷ take n bytes) (drop n bytes)
      ∙ ap (λ (t : List B). sha256.update d (b ∷ t)) (take-drop n bytes)

  -- The streamed hash is the hash of the whole file, for every chunk size of at least one byte, and also if reads
  -- bring less than they are asked for, as long as each brings a byte while there is one: the loop reads to the end
  -- and leaves out no byte.
  pub compute_sha256_stream_lem :
      (chunk_size : ℕ) (bytes : List B)
      → compute_sha256_stream sha256 short (suc chunk_size) bytes
        ≡ sha256.hexdigest (sha256.update sha256.initial bytes)
  unfolding compute_sha256_stream
  compute_sha256_stream_lem chunk_size bytes =
      ap sha256.hexdigest
        (hash_loop_lem (suc (length bytes)) chunk_size sha256.initial bytes (omega arith))

  -- A stored object passes the check exactly if it exists and the hash of all its bytes is the expected one,
  -- spaces around it and upper case aside.
  pub verify_object_sha256_iff :
      (chunk_size : ℕ) (object : Option (List B)) (expected_hash : String)
      → (verify_object_sha256 sha256 short (suc chunk_size) object expected_hash ≡ true) ↔ (
          (body : List B) × (object ≡ some body)
          × (sha256.hexdigest (sha256.update sha256.initial body) ≡ lower (strip expected_hash)))
  unfolding verify_object_sha256
  verify_object_sha256_iff chunk_size none expected_hash =
      (λ p. absurd (ground arith), λ (b, e, h). absurd (ground arith))
  verify_object_sha256_iff chunk_size (some body) expected_hash =
      let actual = compute_sha256_stream sha256 short (suc chunk_size) body in
      let whole = compute_sha256_stream_lem chunk_size body in
      let same = eq_iff actual (lower (strip expected_hash)) in
      (λ p. (body, refl, ground (arith, whole, same)), λ (b, e, h). ground (arith, whole, same))

probe_member :
    (blocklist : List String) (h : String)
    → probe blocklist h ≡ true
    → (before after : List String) × (blocklist ≡ before ++ h ∷ after)
unfolding probe
probe_member [] h p = absurd (ground arith)
probe_member (b ∷ blocklist) h p = elim (Bool-cases (text_eq b h)) [
  | inl e ↦ ([], blocklist, ap (λ (x : String). x ∷ blocklist) (ground (arith, eq_iff b h)))
  | inr e ↦
      let (before, after, f) = probe_member blocklist h (ground arith) in
      (b ∷ before, after, ap (λ (t : List String). b ∷ t) f)
]

member_probe : (h : String) (before after : List String) → probe (before ++ h ∷ after) h ≡ true
unfolding probe
member_probe h [] after = ground (arith, eq_refl h)
member_probe h (b ∷ before) after = ground (arith, member_probe h before after)

-- A hash is blocked exactly if its normal form, without spaces around it and in lower case, is a row of the
-- blocklist.
pub is_hash_blocked_iff :
    (blocklist : List String) (sha256_hash : String)
    → (is_hash_blocked blocklist sha256_hash ≡ true)
      ↔ ((before after : List String) × (blocklist ≡ before ++ lower (strip sha256_hash) ∷ after))
unfolding is_hash_blocked
is_hash_blocked_iff blocklist sha256_hash = (
  λ p. probe_member blocklist (lower (strip sha256_hash)) p,
  λ (before, after, e). rw e (member_probe (lower (strip sha256_hash)) before after),
)
