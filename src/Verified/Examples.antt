-- ===== src/Verified/Examples.antt =====
-- Test data of the operations that check evidence: an object store with one record.
use nix_ai.Prelude.{String, Result, Option, ok, some}
use nix_ai.Json.{Json}

abbrev pub hexes : String
hexes = "aaaaaaaaaaaaaaaaaaaaaaaaaaaaaaaaaaaaaaaaaaaaaaaaaaaaaaaaaaaaaaaa"

-- Every content has the same digest, and the bucket has one object.
abbrev pub one_digest : String → String
one_digest s = hexes

abbrev pub one_object : String → Result String
one_object key = ok "record"

abbrev pub loads : Json → String → Option Json
loads record_read raw = some record_read
