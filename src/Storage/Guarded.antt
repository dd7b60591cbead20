-- ===== src/Storage/Guarded.antt =====
-- What every request of the storage (storage/s3_client.py, storage/presigned.py) keeps to.
use pid_docs.Prelude.{ℕ, String, Option, none, some, List, ◌≡◌, ◌⊎◌, inl, inr, refl}
use pid_docs.Config.{Settings}
use pid_docs.Auth.Permissions.{lookup}
use pid_docs.Storage.Objects.{
  Argument, text, Request, call, signed, put_object, delete_object, generate_presigned_put_url,
  generate_presigned_get_url,
}

-- One use of the storage.
pub data Operation (Int : Type 0) : Type 0 where
  put : String → String → List ℕ → String → Operation Int
  delete : String → String → Operation Int
  sign_put : String → String → Int → String → Operation Int
  sign_get : String → String → Operation Int

module _ {Int : Type 0} where
  abbrev pub method : Request Int → String
  method (call m arguments) = m
  method (signed m arguments seconds) = m

  abbrev pub arguments : Request Int → List (String × Argument Int)
  arguments (call m a) = a
  arguments (signed m a seconds) = a

  abbrev pub expires : Request Int → Option Int
  expires (call m a) = none
  expires (signed m a seconds) = some seconds

module _ {Int : Type 0} (s : Settings Int) where
  pub request : Operation Int → Request Int
  request (put bucket key bytes content_type) = put_object bucket key bytes content_type
  request (delete bucket key) = delete_object bucket key
  request (sign_put bucket key content_length content_type) =
      generate_presigned_put_url s bucket key content_length content_type
  request (sign_get bucket key) = generate_presigned_get_url s bucket key

  -- What a client may do with a request: it is a write that is encrypted, or no write; it names no ACL; and if it is
  -- signed, then for the configured time.
  pub record IsGuarded (r : Request Int) : Type 0 where
    pub encrypted :
        (method r ≡ "put_object")
          × (lookup "ServerSideEncryption" (arguments r) ≡ some (text "AES256"))
        ⊎ (method r ≡ "get_object")
        ⊎ (method r ≡ "delete_object")
    pub no_acl : lookup "ACL" (arguments r) ≡ none
    pub lifetime :
        (seconds : Int) → expires r ≡ some seconds → seconds ≡ s.presigned_url_expiry_seconds

  -- Whatever the storage asks of S3, at once or by a signed URL: what is written is encrypted, no ACL is set, and a
  -- URL is good for exactly the configured time, which no caller can change.
  pub request-IsGuarded : (op : Operation Int) → IsGuarded (request op)
  unfolding request put_object delete_object generate_presigned_put_url generate_presigned_get_url
      lookup
  request-IsGuarded (put bucket key bytes content_type) = record {
    encrypted = inl (refl, refl);
    no_acl = refl;
    lifetime = λ seconds e. cc;
  }
  request-IsGuarded (delete bucket key) = record {
    encrypted = inr (inr refl);
    no_acl = refl;
    lifetime = λ seconds e. cc;
  }
  request-IsGuarded (sign_put bucket key content_length content_type) = record {
    encrypted = inl (refl, refl);
    no_acl = refl;
    lifetime = λ seconds e. cc;
  }
  request-IsGuarded (sign_get bucket key) = record {
    encrypted = inr (inl refl);
    no_acl = refl;
    lifetime = λ seconds e. cc;
  }
