-- ===== src/Evidence/Examples.antt =====
-- A bucket as a table, for tests: an object is its metadata with its content.
use nix_ai.Table.{Table, get, put}
use nix_ai.Prelude.{Option, String, if◌then◌else◌, ℕ, is_some, some, text_len, none}
use nix_ai.Json.{Json}
use nix_ai.Evidence.Objects.{Client, Reply, missing, precondition_failed, found, stored}

abbrev pub Bucket : Type 0
Bucket = Table (Json × String)

head_of : Option (Json × String) → Reply (Json × ℕ)
head_of none = missing
head_of (some (metadata, content)) = found (metadata, text_len content)

body_of : Option (Json × String) → Reply String
body_of none = missing
body_of (some (metadata, content)) = found content

unfoldable pub table_client : Client Bucket
unfolding head_of body_of get put
table_client = record {
  put_object = λ key content metadata bucket.
      if is_some (get key bucket)
      then (precondition_failed, bucket)
      else (stored, put key (metadata, content) bucket);
  head_object = λ key bucket. head_of (get key bucket);
  get_object = λ key bucket. body_of (get key bucket);
}
