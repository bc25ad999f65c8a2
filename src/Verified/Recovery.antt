-- ===== src/Verified/Recovery.antt =====
-- `PostgresRepository.recover`: the boot recovery with evidence of every lease that it takes back.
use nix_ai.Verified.{item}
use nix_ai.Lifecycle.Boot.{recover, BootTables, Report}
use nix_ai.Verified.Activations.{source_of}
use nix_ai.Prelude.{String, Result, ◌>>=◌, ok, ℕ, ◌∷◌, some, []}
use nix_ai.Json.{Json, object, str}
use nix_ai.Lifecycle.Transaction.{Tx}

-- The envelope that `publish` puts for a recovered activation.
unfoldable pub recovery_envelope : (String → String) → Json → Result Json
unfolding item source_of
recovery_envelope sha256 payload = do
  activation_id ← item "activation_id" payload
  ok (
      object (
        ("schema_version", str "1")
        ∷ ("producer", str "service:state")
        ∷ ("subject", activation_id)
        ∷ ("operation", str "activation.recover")
        ∷ ("source", str (source_of sha256 payload))
        ∷ ("payload", payload)
        ∷ []))

-- `publish`, over `put_evidence` with its arguments.
unfoldable pub publish_recovered :
    (String → String) → (Json → String → String → Result Json) → String → Json → Result Json
unfolding recovery_envelope item
publish_recovered sha256 put_evidence command_id payload = do
  envelope ← recovery_envelope sha256 payload
  stored ← put_evidence envelope "service:state" command_id
  item "evidence_ref" stored

-- `recover`, of a repository with its evidence bound.
unfoldable pub recover_bound :
    (String → String) → (Json → String → String → Result Json) → BootTables → ℕ → Tx Report
unfolding recover publish_recovered
recover_bound sha256 put_evidence boot now =
    recover boot (some (publish_recovered sha256 put_evidence)) now
