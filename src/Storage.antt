-- ===== src/Storage.antt =====
-- storage/hashing.py, storage/blocklist.py and storage/presigned.py: the gate in front of an upload and the
-- check of what was stored. SHA-256 is hashlib's, a parameter with an incremental interface.
pub mod Hashing
pub mod Objects
pub mod Keys
pub mod Guarded
mod Tests
use Prim.Native.Char.{code}
use Prim.Native.String as Text
use pid_docs.Prelude.{
  ℕ, zero, suc, String, text_eq, Bool, true, false, ◌||◌, Option, none, some, List, [], ◌∷◌, ◌++◌,
  ◌≡◌, ◌==◌, if◌then◌else◌, length, take, drop, min,
}
use pid_docs.Prelude.Text.{lower, strip, lstrip_where}

-- What `hashlib.sha256()` offers, with the documented law: updating twice is updating with both parts.
pub record Digest (B : Type 0) : Type 1 where
  pub State : Type 0
  pub initial : State
  pub update : State → List B → State
  pub hexdigest : State → String
  pub update_append : (d : State) (a b : List B) → update (update d a) b ≡ update d (a ++ b)
  pub update_empty : (d : State) → update d [] ≡ d

-- A read brings at least one byte while there is one, and at most as many as it is asked for: it is asked for
-- `chunk_size`, and brings no more than `suc (short n)` where `n` rounds of fuel are left behind it.
module _ {B : Type 0} (sha256 : Digest B) (short : ℕ → ℕ) where
  -- The loop on the bytes that are left; each round reads at most `chunk_size` of them.
  pub hash_loop : ℕ → ℕ → sha256.State → List B → sha256.State
  hash_loop zero chunk_size d bytes = d
  hash_loop (suc fuel) chunk_size d bytes =
      let n = min chunk_size (suc (short fuel)) in
      elim (take n bytes) [
        | [] ↦ d
        | b ∷ bs ↦ hash_loop fuel chunk_size (sha256.update d (b ∷ bs)) (drop n bytes)
      ]

  -- one round for every byte, and the last one that finds the end
  pub compute_sha256_stream : ℕ → List B → String
  unfolding hash_loop
  compute_sha256_stream chunk_size bytes =
      sha256.hexdigest (hash_loop (suc (length bytes)) chunk_size sha256.initial bytes)

  -- The stored object: none when `get_object` raises a `ClientError`.
  pub verify_object_sha256 : ℕ → Option (List B) → String → Bool
  unfolding compute_sha256_stream
  verify_object_sha256 chunk_size none expected_hash = false
  verify_object_sha256 chunk_size (some body) expected_hash =
      text_eq (compute_sha256_stream chunk_size body) (lower (strip expected_hash))

normalize : String → String
normalize sha256_hash = lower (strip sha256_hash)

probe : List String → String → Bool
probe [] h = false
probe (b ∷ blocklist) h = text_eq b h || probe blocklist h

-- the rows of `file_hash_blocklist`
pub is_hash_blocked : List String → String → Bool
unfolding normalize probe
is_hash_blocked blocklist sha256_hash = probe blocklist (normalize sha256_hash)

unfoldable pub drawing_object_key : String → String → String
drawing_object_key drawing_id ext =
    Text.◌++◌ "drawings/"
      (Text.◌++◌ drawing_id (Text.◌++◌ "/original." (lstrip_where (λ c. code c == 46) ext)))

unfoldable pub export_object_key : String → String → String
export_object_key export_id ext =
    Text.◌++◌ "exports/"
      (Text.◌++◌ export_id (Text.◌++◌ "." (lstrip_where (λ c. code c == 46) ext)))
