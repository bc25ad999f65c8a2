-- ===== src/Store/Restore/History.antt =====
-- The restored tables: the history is that of the backup, and the entities agree with it.
use nix_ai.Prelude.{
  String, ℕ, Bool, ◌≡◌, arith, List, [], ◌∷◌, some, none, ok, Result, Option, if◌then◌else◌, ◌==◌,
  ◌++◌, eq_iff, ◌⊎◌, inl, inr, reject_if-eq-ok, >>=-eq-ok, is_some, not, integrity_error, ◌∙◌, beq,
  check_violation, unique_violation, ap, false, sym, permission_error, ok_inj, beq→eq, Bool-cases,
  ltb, not-false, some_inj, expect_some-eq-ok,
}
use nix_ai.Table.{Table, get, put}
use nix_ai.Table.Laws.{get-put, get-put_self}
use nix_ai.Store.{Transition, Entity, StateDb, EvidenceRef}
use mathlib.Core.List.{append-nil, append_assoc}
use nix_ai.Store.Restore.{
  larger, version_in, check_rows, check_entities, insert_entities, insert_rows, insert_row,
  is_listed, is_version, restore, refill, Backup, max_backup_bytes, check_items, put_objects,
  insert_references, Item,
}
use mathlib.Core.Path.{subst}

-- The largest version that the rows of an entity have written.
unfoldable pub highest : String → List Transition → ℕ
highest e [] = 0
highest e (t ∷ ts) =
    let rest = highest e ts in if t.entity_id.value == e then larger t.new_version rest else rest

larger_assoc : (a b c : ℕ) → larger (larger a b) c ≡ larger a (larger b c)
larger_assoc a b c = ground arith

zero_larger : (a : ℕ) → larger 0 a ≡ a
zero_larger a = ground arith

larger_zero : (a : ℕ) → larger a 0 ≡ a
larger_zero a = ground arith

noted :
    (e k : String) (v : ℕ) (versions : Table ℕ) (rest : ℕ)
    → larger (version_in e (put k (larger (version_in k versions) v) versions)) rest
      ≡ larger (version_in e versions) (if k == e then larger v rest else rest)
noted e k v versions rest =
    ground (arith, get-put k e (larger (version_in k versions) v) versions, eq_iff k e)

check_rows-highest :
    {A : Type 0} (evidence : Table A) (all ts : List Transition) (versions found : Table ℕ)
    → check_rows evidence all ts versions ≡ ok found
    → (e : String) → version_in e found ≡ larger (version_in e versions) (highest e ts)
unfolding check_rows highest
check_rows-highest evidence all [] versions found h e =
    ap (version_in e) (sym (ok_inj h)) ∙ sym (larger_zero (version_in e versions))
check_rows-highest evidence all (t ∷ ts) versions found h e =
    let (_, h) =
      reject_if-eq-ok (not (is_some (get t.evidence_id evidence)))
        (integrity_error "transition references missing evidence") _ h in
    let (_, h) =
      reject_if-eq-ok (not (is_listed t.correction_of all))
        (integrity_error "correction references missing history") _ h in
    check_rows-highest evidence all ts _ found h e
    ∙ noted e t.entity_id.value t.new_version versions (highest e ts)

is_version-eq : (v : ℕ) (o : Option ℕ) → not (is_version v o) ≡ false → o ≡ some v
is_version-eq v none h = ground (arith, h)
is_version-eq v (some w) h = ap some (beq→eq w v (not-false (beq w v) h))

-- An entity that is found behind an insertion was there or is the inserted one.
entered :
    (k e : String) (x row : Entity) (before : Table Entity) (versions : Table ℕ)
    → not (is_version x.version (get k versions)) ≡ false
    → get e (put k x before) ≡ some row
    → (get e before ≡ some row) ⊎ (get e versions ≡ some row.version)
entered k e x row before versions agrees found = elim (Bool-cases (k == e)) [
  | inl same ↦
      let at : k ≡ e = ground (arith, eq_iff k e, same) in
      let is : x ≡ row =
        some_inj (
          sym (get-put_self e x before)
          ∙ subst (λ j. get e (put j x before) ≡ some row) at found) in
      inr (
        subst (λ j. get j versions ≡ some row.version) at
          (is_version-eq x.version (get k versions) agrees ∙ ap (λ y. some y.version) is))
  | inr other ↦ inl (ground (arith, get-put k e x before, other, found))
]

insert_entities-check :
    (versions : Table ℕ) (rows : List (String × Entity)) (before after : Table Entity)
    (u : Unit {0}) (e : String) (row : Entity)
    → check_entities versions rows ≡ ok u
    → insert_entities rows before ≡ ok after
    → get e after ≡ some row
    → (get e before ≡ some row) ⊎ (get e versions ≡ some row.version)
unfolding check_entities insert_entities
insert_entities-check versions [] before after u e row c h found = inl (ground (arith, h, found))
insert_entities-check versions ((k, x) ∷ rows) before after u e row c h found =
    let (agrees, c) =
      reject_if-eq-ok (not (is_version x.version (get k versions)))
        (integrity_error "entity and history versions disagree") _ c in
    let (_, h) =
      reject_if-eq-ok (beq x.version 0) (check_violation "authoritative_entities_version_check") _
        h in
    let (_, h) =
      reject_if-eq-ok (is_some (get k before)) (unique_violation "authoritative_entities_pkey") _
        h in
    elim (insert_entities-check versions rows (put k x before) after u e row c h found) [
      | inl here ↦ entered k e x row before versions agrees here
      | inr there ↦ inr there
    ]

insert_rows-all :
    {A : Type 0} (refs : Table A) (ts done out : List Transition)
    → insert_rows refs ts done ≡ ok out
    → out ≡ done ++ ts
unfolding insert_rows
insert_rows-all refs [] done out h = sym (ok_inj h) ∙ sym (append-nil done)
insert_rows-all refs (t ∷ ts) done out h =
    let (_, _, h) = >>=-eq-ok (insert_row refs t done) _ h in
    insert_rows-all refs ts (done ++ t ∷ []) out h ∙ append_assoc done (t ∷ []) ts

agreed :
    (e : String) (row : Entity) (versions : Table ℕ) (most : ℕ)
    → (get e [] ≡ some row) ⊎ (get e versions ≡ some row.version)
    → version_in e versions ≡ larger (version_in e []) most
    → row.version ≡ most
unfolding get
agreed e row versions most (inl nothing) h = cc
agreed e row versions most (inr found) h =
    let same : version_in e versions ≡ row.version = ground (arith, found) in
    sym same ∙ h ∙ zero_larger most

module _ (sha256 : String → String) (byte_len : String → ℕ) (b64decode : String → Option String)
    (is_uuid : String → Bool) (encoded_len : Backup → ℕ)
    (put_content : String → String → String → Result String) (mode : Bool) (backup : Backup)
    (db db' : StateDb) where
  -- What a restore that succeeds has checked and inserted.
  pub restore-filled :
      restore sha256 byte_len b64decode is_uuid encoded_len put_content mode backup db ≡ ok db'
      → (evidence : Table (Item × String)) × (versions : Table ℕ) × (refs : Table EvidenceRef)
        × (entities : Table Entity) × (check_rows evidence backup.transitions backup.transitions []
            ≡ ok versions)
        × (check_entities versions backup.entities ≡ ok tt)
        × (insert_entities backup.entities [] ≡ ok entities)
        × (insert_rows refs backup.transitions [] ≡ ok db'.transitions)
        × (entities ≡ db'.entities)
  unfolding restore refill
  restore-filled h =
      let (_, h) =
        reject_if-eq-ok (not mode) (permission_error "restore requires dedicated recovery mode") _
          h in
      let (_, h) =
        reject_if-eq-ok (ltb max_backup_bytes (encoded_len backup))
          (integrity_error "backup exceeds bounded restore size") _ h in
      let (marker, _, h) =
        expect_some-eq-ok backup.consistency_marker
          (integrity_error "invalid backup consistency marker") _ h in
      let (_, h) =
        reject_if-eq-ok (not (is_uuid marker)) (integrity_error "invalid backup consistency marker")
          _ h in
      let (evidence, _, h) =
        >>=-eq-ok
          (check_items sha256 byte_len b64decode is_uuid encoded_len put_content marker
            backup.evidence [])
          _ h in
      let (versions, rows, h) =
        >>=-eq-ok (check_rows evidence backup.transitions backup.transitions []) _ h in
      let (u, agree, h) = >>=-eq-ok (check_entities versions backup.entities) _ h in
      let (_, _, h) =
        >>=-eq-ok
          (put_objects sha256 byte_len b64decode is_uuid encoded_len put_content marker evidence) _
          h in
      let (refs, _, h) = >>=-eq-ok (insert_references evidence []) _ h in
      let (entities, filled, h) = >>=-eq-ok (insert_entities backup.entities []) _ h in
      let (transitions, inserted, h) = >>=-eq-ok (insert_rows refs backup.transitions []) _ h in
      let is = ok_inj h in
      (
        evidence,
        versions,
        refs,
        entities,
        rows,
        agree,
        filled,
        inserted ∙ ap (λ d. ok d.transitions) is,
        ap (λ d. d.entities) is,
      )

  -- A restore that succeeds takes over the history of the backup as it is, and every entity that it
  -- restores has the largest version that the history of the entity has written.
  pub restore-eq-ok :
      restore sha256 byte_len b64decode is_uuid encoded_len put_content mode backup db ≡ ok db'
      → (db'.transitions ≡ backup.transitions)
        × ((e : String) (row : Entity)
            → get e db'.entities ≡ some row
            → row.version ≡ highest e db'.transitions)
  restore-eq-ok h =
      let (evidence, versions, refs, entities, rows, agree, filled, inserted, is) =
        restore-filled h in
      let log : db'.transitions ≡ backup.transitions =
        insert_rows-all refs backup.transitions [] db'.transitions inserted in
      (
        log,
        λ e row found.
            agreed e row versions (highest e backup.transitions)
              (insert_entities-check versions backup.entities [] entities tt e row agree filled
                (ap (get e) is ∙ found))
              (check_rows-highest evidence backup.transitions backup.transitions [] versions rows e)
            ∙ ap (highest e) (sym log),
      )
