-- ===== src/Evidence/Objects.antt =====
-- `GarageEvidenceAdapter`: the objects of a bucket, written once and read back.
use nix_ai.Prelude.{
  String, ℕ, Result, ok, err, ◌>>=◌, runtime_error, ledger_unavailable, evidence_not_found, ◌>>◌,
  reject_if, not, ◌||◌, beq, ◌==◌, ledger_corrupt,
}
use nix_ai.Json.{Json, py_eq}

-- What the client answers: an object, that there is none under the key, or another error.
pub data Reply (A : Type 0) : Type 0 where
  found : A → Reply A
  missing failed : Reply A

-- What the client answers to a conditional write (IfNoneMatch="*").
pub data Upload : Type 0 where
  stored precondition_failed refused : Upload

-- The S3 client, over the contents `B` of its bucket: `put_object`, `head_object` with the metadata
-- and the length, and `get_object`.
pub record Client (B : Type 0) : Type 0 where
  pub put_object : String → String → Json → B → Upload × B
  pub head_object : String → B → Reply (Json × ℕ)
  pub get_object : String → B → Reply String

module _ {B : Type 0} (client : Client B) (byte_len : String → ℕ) where
  -- A reply outside the `try`: an error of the client passes through.
  answered : {A : Type 0} → Reply A → Result A
  answered (found a) = ok a
  answered missing = err (runtime_error "botocore.exceptions.ClientError")
  answered failed = err (runtime_error "botocore.exceptions.ClientError")

  -- The reading behind the write, and its comparison with what was to be written.
  unfoldable pub read_back : String → String → Json → B → Result String
  unfolding answered py_eq
  read_back key content metadata bucket = do
    head ← answered (client.head_object key bucket)
    body ← answered (client.get_object key bucket)
    reject_if
        (not (py_eq head.0 metadata)
          || (not (beq head.1 (byte_len content)) || not (body == content)))
        (ledger_corrupt "immutable evidence object conflicts with canonical bytes")
    ok body

  -- `put_content`
  unfoldable pub put_content : String → String → Json → B → Result String × B
  unfolding read_back
  put_content key content metadata bucket =
      let sent = client.put_object key content metadata bucket in
      elim sent.0 [
        | refused ↦ (err (ledger_unavailable "evidence write unavailable"), sent.1)
        | _ ↦ (read_back key content metadata sent.1, sent.1)
      ]

  object_of : String → Reply (Json × ℕ) → Reply String → Result (ℕ × String)
  object_of key (found head) (found body) = ok (head.1, body)
  object_of key (found head) missing = err (evidence_not_found key)
  object_of key (found head) failed = err (ledger_unavailable "evidence object store unavailable")
  object_of key missing body = err (evidence_not_found key)
  object_of key failed body = err (ledger_unavailable "evidence object store unavailable")

  -- `get_content`
  unfoldable pub get_content : String → B → Result (ℕ × String)
  unfolding object_of
  get_content key bucket =
      object_of key (client.head_object key bucket) (client.get_object key bucket)

  -- The content alone, as `verify` reads it.
  unfoldable pub content_of : B → String → Result String
  unfolding get_content
  content_of bucket key = get_content key bucket >>= λ object. ok object.1
