-- ===== src/Storage/Tests.antt =====
-- The streamed hash and the blocklist at concrete inputs. The digest of the tests keeps the bytes.
use mathlib.Core.List.{append-nil, append_assoc}
use pid_docs.Prelude.{ℕ, String, List, [], ◌∷◌, ◌++◌, ◌≡◌}
use pid_docs.Storage.{Digest, compute_sha256_stream}
use pid_docs.Storage.Hashing.{compute_sha256_stream_lem}

abbrev hex : List ℕ → String
hex [] = ""
hex (b ∷ bs) = "ab"

abbrev kept : Digest ℕ
kept = record {
  State = List ℕ;
  initial = [];
  update = λ d a. d ++ a;
  hexdigest = hex;
  update_append = append_assoc;
  update_empty = append-nil;
}

compute_sha256_stream_lem_example : compute_sha256_stream kept (λ n. n) 2 (1 ∷ 2 ∷ 3 ∷ []) ≡ "ab"
compute_sha256_stream_lem_example = compute_sha256_stream_lem kept (λ n. n) 1 (1 ∷ 2 ∷ 3 ∷ [])
