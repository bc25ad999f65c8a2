-- ===== src/Verified/Activations/Replays.antt =====
-- The evidence that a claim publishes is the evidence that its replay verifies.
use nix_ai.Lifecycle.Claims.{
  Claim, claim_fields, evidence_payload, next_version, next_fence, grant_items,
}
use nix_ai.Prelude.{
  Option, ℕ, String, List, ◌≤◌, ◌≡◌, some, ◌≢◌, ◌+◌, ok, ◌++◌, arith, none, refl, ◌∷◌, [], suc,
  zero, Result, ◌>>=◌, Exception, ok_inj, eq_refl, true, sym, reject_if, ◌∙◌, not, ledger_corrupt,
  ap, text_append,
}
use nix_ai.Verified.Activations.{
  prior_number, without_evidence, replayed_payload, verify_replayed, claimed_envelope, source_of,
  envelope_of,
}
use nix_ai.Lifecycle.Db.{Activation}
use nix_ai.Json.{
  Fields, nat, fields_of, str, null, maybe_nat, Json, items_of, object, get_field, py_eq,
}
use nix_ai.Verified.{item, EvidenceAuthority}
use nix_ai.Json.Equality.{IsProper, AreProper, py_eq_refl}
use nix_ai.Evidence.{Expected, check_record}
use nix_ai.Verified.Bound.{bind_evidence}
use nix_ai.Evidence.Objects.{Client, content_of}
use nix_ai.Ledger.{Admission, find_admission}
use nix_ai.Json.Dumps.{dumps, canonical_style}
use nix_ai.Evidence.Envelopes.{put_envelope, stored_answer}
use nix_ai.Evidence.Envelopes.Replays.{put_envelope-verify}
use nix_ai.Evidence.Bindings.{verify_record-loaded}

-- The result of a claim, with the reference to its evidence.
abbrev claimed_result :
    Claim → ℕ → String × String × List String → Option (String × Activation) → String → Fields
claimed_result q now bound prior reference =
    fields_of (claim_fields q now bound prior ++ ("binding_evidence_ref", str reference) ∷ [])

-- The row that was there has been written before, and its fence is none that counts from 0.
abbrev pub IsVersioned : Option (String × Activation) → Type 0
IsVersioned none = Unit
IsVersioned (some (_, a)) = (1 ≤ a.version) × (a.lease_fence ≢ some 0)

prior_number-suc : (n : ℕ) → 1 ≤ n → prior_number (nat (n + 1)) ≡ ok (nat n)
unfolding prior_number
prior_number-suc n h = ground arith

without_evidence-claimed :
    (q : Claim) (now : ℕ) (bound : String × String × List String)
    (prior : Option (String × Activation)) (reference : String)
    → without_evidence (claimed_result q now bound prior reference)
      ≡ fields_of (claim_fields q now bound prior)
unfolding without_evidence claim_fields
without_evidence-claimed q now bound prior reference = refl

prior_version :
    (prior : Option (String × Activation))
    → IsVersioned prior
    → prior_number (nat (next_version prior))
      ≡ ok (elim prior [ none ↦ null | some (_, a) ↦ nat a.version ])
unfolding prior_number
prior_version none h = refl
prior_version (some (k, a)) h = prior_number-suc a.version h.0

prior_fence :
    (prior : Option (String × Activation))
    → IsVersioned prior
    → prior_number (nat (next_fence prior))
      ≡ ok (elim prior [ none ↦ null | some (_, a) ↦ maybe_nat a.lease_fence ])
unfolding prior_number
prior_fence none h = refl
prior_fence (some (k, a)) h = from a.lease_fence h.1
  where
    from :
        (f : Option ℕ)
        → f ≢ some 0
        → prior_number (nat (elim f as (λ _. ℕ) [ none ↦ 1 | some n ↦ n + 1 ])) ≡ ok (maybe_nat f)
    from none h = refl
    from (some zero) h = absurd (h refl)
    from (some (suc n)) h = prior_number-suc (suc n) (ground arith)

-- What a replay rebuilds is the payload that the claim has published.
replayed_payload-claimed :
    (q : Claim) (now : ℕ) (bound : String × String × List String)
    (prior : Option (String × Activation)) (reference : String)
    → IsVersioned prior
    → replayed_payload q.command_id (claimed_result q now bound prior reference)
      ≡ ok (evidence_payload q prior (claim_fields q now bound prior))
unfolding replayed_payload claim_fields evidence_payload item
replayed_payload-claimed q now bound prior reference h =
    rebuilt (str q.command_id) (object (claim_fields q now bound prior)) _ _ (prior_version prior h)
      (prior_fence prior h)
  where
    rebuilt :
        (command_id binding : Json) (v w : Result Json) {x y : Json}
        → v ≡ ok x
        → w ≡ ok y
        → (v >>= λ a.
            (w >>= λ b. ok (
              object (
                ("command_id", command_id)
                ∷ ("prior_activation_version", a)
                ∷ ("prior_lease_fence", b)
                ∷ ("binding", binding)
                ∷ []))))
          ≡ ok (
              object (
                ("command_id", command_id)
                ∷ ("prior_activation_version", x)
                ∷ ("prior_lease_fence", y)
                ∷ ("binding", binding)
                ∷ []))
    rebuilt command_id binding v w e f = rw (e, f) refl

items-AreProper : (grants : List String) → AreProper (items_of (grant_items grants))
unfolding grant_items IsProper
items-AreProper [] = tt
items-AreProper (g ∷ gs) = (tt, items-AreProper gs)

evidence_payload-IsProper :
    (q : Claim) (now : ℕ) (bound : String × String × List String)
    (prior : Option (String × Activation))
    → IsProper (evidence_payload q prior (claim_fields q now bound prior))
unfolding evidence_payload claim_fields IsProper grant_items
evidence_payload-IsProper q now bound prior = (
  refl,
  tt,
  (
    refl,
    version prior,
    (
      refl,
      fence prior,
      (
        refl,
        (
          refl,
          tt,
          (
            refl,
            tt,
            (
              refl,
              tt,
              (
                refl,
                tt,
                (
                  refl,
                  tt,
                  (
                    refl,
                    tt,
                    (
                      refl,
                      tt,
                      (
                        refl,
                        tt,
                        (
                          refl,
                          tt,
                          (
                            refl,
                            tt,
                            (
                              refl,
                              tt,
                              (
                                refl,
                                items-AreProper bound.2,
                                (
                                  refl,
                                  tt,
                                  (
                                    refl,
                                    tt,
                                    (
                                      refl,
                                      tt,
                                      (
                                        refl,
                                        tt,
                                        (
                                          refl,
                                          tt,
                                          (refl, tt, (refl, tt, (refl, tt, (refl, tt, tt)))),
                                        ),
                                      ),
                                    ),
                                  ),
                                ),
                              ),
                            ),
                          ),
                        ),
                      ),
                    ),
                  ),
                ),
              ),
            ),
          ),
        ),
        tt,
      ),
    ),
  ),
)
  where
    version :
        (o : Option (String × Activation))
        → IsProper (elim o as (λ _. Json) [ none ↦ null | some x ↦ nat x.1.version ])
    version none = tt
    version (some x) = tt

    fence :
        (o : Option (String × Activation))
        → IsProper (elim o as (λ _. Json) [ none ↦ null | some x ↦ maybe_nat x.1.lease_fence ])
    fence none = tt
    fence (some x) = of x.1.lease_fence
      where
        of : (n : Option ℕ) → IsProper (maybe_nat n)
        of none = tt
        of (some n) = tt

-- What a replay expects of the evidence.
abbrev replay_expected : (String → String) → Json → Json → Expected
replay_expected sha256 activation_id payload = record {
  subject = activation_id;
  producer = str "service:state";
  source = str (source_of sha256 payload);
  operation = some (str "activation.claimed");
  disposition = none;
}

claimed_envelope-of :
    (sha256 : String → String) (q : Claim) (now : ℕ) (bound : String × String × List String)
    (prior : Option (String × Activation))
    → claimed_envelope sha256 (evidence_payload q prior (claim_fields q now bound prior))
      ≡ ok (
          envelope_of sha256
            (evidence_payload q prior (claim_fields q now bound prior))
            (str q.activation_id))
unfolding claimed_envelope evidence_payload claim_fields
claimed_envelope-of sha256 q now bound prior = refl

envelope_of-check_record :
    (sha256 : String → String) (payload : Json) (activation_id : String)
    → check_record
        (replay_expected sha256 (str activation_id) payload)
        (envelope_of sha256 payload (str activation_id))
      ≡ ok (envelope_of sha256 payload (str activation_id))
unfolding check_record envelope_of get_field py_eq
envelope_of-check_record sha256 payload activation_id =
    rw (eq_refl activation_id, eq_refl (source_of sha256 payload)) refl

payload-envelope_of :
    (sha256 : String → String) (payload activation_id : Json)
    → get_field "payload" (envelope_of sha256 payload activation_id) ≡ payload
unfolding envelope_of get_field
payload-envelope_of sha256 payload activation_id = refl

-- The end of `verify`.
replay_steps :
    (v : Result Json) (f : Json → Result Json) (e : Exception) {p r : Json}
    → v ≡ ok p
    → f p ≡ ok r
    → get_field "payload" r ≡ p
    → py_eq p p ≡ true
    → (v >>= λ payload.
        (f payload >>= λ evidence.
        reject_if (not (py_eq (get_field "payload" evidence) payload)) e))
      ≡ ok tt
replay_steps v f e is found read same = rw (is, found, read, same) refl

-- The source of an envelope, independently of `source_of`: the digest of the payload's canonical text,
-- with sorted keys and no spaces.
abbrev pub canonical_source : (String → String) → Json → String
canonical_source sha256 payload = text_append "sha256:" (sha256 (dumps canonical_style payload))

source-envelope_of :
    (sha256 : String → String) (payload activation_id : Json)
    → get_field "source" (envelope_of sha256 payload activation_id)
      ≡ str (canonical_source sha256 payload)
unfolding envelope_of get_field source_of
source-envelope_of sha256 payload activation_id = refl

-- The evidence that a claim has published for its binding passes the verification of its replay,
-- where the evidence store reads the envelope back under the reference that it was given, and the row
-- that was there, if any, has been written before and has no fence 0. The source of the envelope is
-- the digest of the payload's canonical text.
pub verify_replayed-publish :
    (authority : EvidenceAuthority) (sha256 : String → String) (q : Claim) (now : ℕ)
    (bound : String × String × List String) (prior : Option (String × Activation)) (envelope : Json)
    (reference : String)
    → claimed_envelope sha256 (evidence_payload q prior (claim_fields q now bound prior))
      ≡ ok envelope
    → ((e : Expected) → authority.verify_record e (str reference) ≡ check_record e envelope)
    → IsVersioned prior
    → (verify_replayed authority sha256 q.command_id
          (object (claim_fields q now bound prior ++ ("binding_evidence_ref", str reference) ∷ []))
        ≡ ok tt)
      × (get_field "source" envelope
          ≡ str
              (canonical_source sha256 (evidence_payload q prior (claim_fields q now bound prior))))
unfolding verify_replayed claim_fields
verify_replayed-publish authority sha256 q now bound prior envelope reference is_envelope stored h =
    let p = evidence_payload q prior (claim_fields q now bound prior) in
    let is : envelope ≡ envelope_of sha256 p (str q.activation_id) =
      ok_inj (sym is_envelope ∙ claimed_envelope-of sha256 q now bound prior) in
    (
      replay_steps (replayed_payload q.command_id (claimed_result q now bound prior reference))
          (λ payload.
            authority.verify_record (replay_expected sha256 (str q.activation_id) payload)
              (str reference))
          (ledger_corrupt "activation replay binding evidence is corrupt")
          (replayed_payload-claimed q now bound prior reference h)
          (stored (replay_expected sha256 (str q.activation_id) p)
            ∙ ap (check_record (replay_expected sha256 (str q.activation_id) p)) is
            ∙ envelope_of-check_record sha256 p q.activation_id)
          (payload-envelope_of sha256 p (str q.activation_id))
          (py_eq_refl p (evidence_payload-IsProper q now bound prior)),
      ap (get_field "source") is ∙ source-envelope_of sha256 p (str q.activation_id),
    )

-- The evidence of a claim, from the bucket that it is put into to the replay that verifies it: where
-- `put_envelope` has stored the claim's envelope for a command with no admission, json.loads reads
-- it as it was dumped, and the row that was there, if any, has been written before and has no fence
-- 0, the replay of the claim passes its verification. The source of the envelope is the digest of the payload's canonical text.
pub verify_replayed-put_envelope :
    {B : Type 0} (client : Client B) (byte_len : String → ℕ) (sha256 : String → String)
    (bucket : String) (json_loads : String → Option Json) (q : Claim) (now : ℕ)
    (bound : String × String × List String) (prior : Option (String × Activation)) (envelope : Json)
    (command_id : String) (quota : ℕ) (rows rows' : List Admission) (objects objects' : B)
    (answer : Json)
    → IsVersioned prior
    → claimed_envelope sha256 (evidence_payload q prior (claim_fields q now bound prior))
      ≡ ok envelope
    → json_loads (dumps canonical_style envelope) ≡ some envelope
    → find_admission "service:state" command_id rows ≡ none
    → put_envelope client byte_len sha256 bucket envelope "service:state" command_id quota rows
        objects
      ≡ (ok answer, rows', objects')
    → (reference : String) × (answer ≡ stored_answer reference)
      × (verify_replayed
            (bind_evidence sha256 bucket (content_of client byte_len objects') json_loads)
            sha256
            q.command_id
            (object
              (claim_fields q now bound prior ++ ("binding_evidence_ref", str reference) ∷ []))
          ≡ ok tt)
      × (get_field "source" envelope
          ≡ str
              (canonical_source sha256 (evidence_payload q prior (claim_fields q now bound prior))))
unfolding bind_evidence
verify_replayed-put_envelope client byte_len sha256 bucket json_loads q now bound prior envelope
      command_id quota rows rows' objects objects' answer versioned is_envelope loads new h =
    let (reference, is, read, _) =
      put_envelope-verify client byte_len sha256 bucket envelope "service:state" command_id quota
        rows rows' objects objects' answer new h in
    let replayed =
      verify_replayed-publish
        (bind_evidence sha256 bucket (content_of client byte_len objects') json_loads) sha256 q now
        bound prior envelope reference is_envelope
        (λ e.
          verify_record-loaded sha256 bucket (content_of client byte_len objects') json_loads e
            (str reference) (dumps canonical_style envelope) envelope read loads)
        versioned in
    (reference, is, replayed.0, replayed.1)
