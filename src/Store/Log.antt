-- ===== src/Store/Log.antt =====
-- The entities as an account of the log: what every run of the store keeps of its tables.
use nix_ai.Prelude.{
  String, Option, List, ℕ, ◌≡◌, ◌∷◌, none, ◌++◌, ok, some, if◌then◌else◌, [], ◌==◌, arith, ◌+◌,
  refl, eq_iff, >>=-eq-ok, is_some, reject_if-eq-ok, any, unique_violation, not,
  foreign_key_violation, ok_pair, sym, Bool, true, ap, ◌∙◌, false,
}
use nix_ai.Store.{
  find_command, StateDb, transition_new, Request, Entity, Transition, entity_version, appended,
  upserted, transition_checks, is_known,
}
use nix_ai.Table.{get, put}
use nix_ai.Domain.{State}
use nix_ai.Store.History.{find_command-append}
use nix_ai.Table.Laws.{get-put}

-- How many rows the log has of an entity.
unfoldable pub rows_of : String → List Transition → ℕ
rows_of e [] = 0
rows_of e (t ∷ ts) = let rest = rows_of e ts in if t.entity_id.value == e then rest + 1 else rest

-- The version and the state that its last row has written.
unfoldable pub latest : String → List Transition → Option (ℕ × State)
latest e [] = none
latest e (t ∷ ts) = elim (latest e ts) [
  | some r ↦ some r
  | none ↦ if t.entity_id.value == e then some (t.new_version, t.new_state) else none
]

abbrev pub seen : Option Entity → Option (ℕ × State)
seen none = none
seen (some e) = some (e.version, e.state)

-- No command has two rows.
unfoldable pub AreOnce : List Transition → Type 0
unfolding find_command
AreOnce [] = Unit
AreOnce (t ∷ ts) = (find_command t.command_id ts ≡ none) × AreOnce ts

-- The entities are what the log says of them, the version of an entity counts its rows, and no
-- command has two rows.
pub record IsLogged (db : StateDb) : Type 0 where
  pub states : (e : String) → seen (get e db.entities) ≡ latest e db.transitions
  pub versions : (e : String) → entity_version (get e db.entities) ≡ rows_of e db.transitions
  pub commands : AreOnce db.transitions

latest-append :
    (e : String) (ts : List Transition) (t : Transition)
    → latest e (ts ++ t ∷ [])
      ≡ (if t.entity_id.value == e then some (t.new_version, t.new_state) else latest e ts)
unfolding latest
latest-append e [] t = refl
latest-append e (x ∷ ts) t = ground (arith, latest-append e ts t)

rows_of-append :
    (e : String) (ts : List Transition) (t : Transition)
    → rows_of e (ts ++ t ∷ []) ≡ (if t.entity_id.value == e then rows_of e ts + 1 else rows_of e ts)
unfolding rows_of
rows_of-append e [] t = refl
rows_of-append e (x ∷ ts) t = ground (arith, rows_of-append e ts t)

pub AreOnce-append :
    (ts : List Transition) (t : Transition)
    → AreOnce ts
    → find_command t.command_id ts ≡ none
    → AreOnce (ts ++ t ∷ [])
unfolding AreOnce find_command
AreOnce-append [] t h fresh = (refl, tt)
AreOnce-append (x ∷ ts) t h fresh = (
  ground (
    arith,
    find_command-append x.command_id ts t h.0,
    eq_iff t.command_id x.command_id,
    eq_iff x.command_id t.command_id,
  ),
  AreOnce-append ts t h.1 (ground arith),
)

-- The two writes of a new transition.
abbrev pub advanced : Request → String → ℕ → StateDb → StateDb
advanced q transition_id occurred_at db =
    let row = get q.entity_id.value db.entities in
    record db {
      entities = put q.entity_id.value (upserted q row occurred_at) db.entities;
      transitions =
          db.transitions ++ appended q transition_id (entity_version row) occurred_at ∷ [];
    }

pub transition_new-advanced :
    (q : Request) (transition_id : String) (occurred_at : ℕ) (db db' : StateDb) (t : Transition)
    → transition_new q transition_id occurred_at db ≡ ok (t, db')
    → advanced q transition_id occurred_at db ≡ db'
unfolding transition_new
transition_new-advanced q transition_id occurred_at db db' t h =
    let row = get q.entity_id.value db.entities in
    let (_, checked, h) =
      >>=-eq-ok (transition_checks q row (is_some (get q.evidence_id db.evidence_refs))) _ h in
    let (_, h) =
      reject_if-eq-ok (any (λ t. t.transition_id == transition_id) db.transitions)
        (unique_violation "state_transitions_pkey") _ h in
    let (_, h) =
      reject_if-eq-ok (not (is_known transition_id q.correction_of db.transitions))
        (foreign_key_violation "state_transitions_correction_of_fkey") _ h in
    (ok_pair h).1

pub advanced-IsLogged :
    (q : Request) (transition_id : String) (occurred_at : ℕ) (db : StateDb)
    → find_command q.command_id db.transitions ≡ none
    → IsLogged db
    → IsLogged (advanced q transition_id occurred_at db)
advanced-IsLogged q transition_id occurred_at db fresh logged =
    let k = q.entity_id.value in
    let row = get k db.entities in
    let u = upserted q row occurred_at in
    let t = appended q transition_id (entity_version row) occurred_at in
    record {
      states = λ e.
          ap seen (get-put k e u db.entities)
          ∙ moved u (get e db.entities) (k == e) (logged.states e)
          ∙ sym (latest-append e db.transitions t);
      versions = λ e.
          ap entity_version (get-put k e u db.entities)
          ∙ counted u (get e db.entities) (entity_version row) (k == e) refl
              (λ same. ap (λ x. entity_version (get x db.entities)) ((eq_iff k e).0 same))
              (logged.versions e)
          ∙ sym (rows_of-append e db.transitions t);
      commands = AreOnce-append db.transitions t logged.commands fresh;
    }
  where
    moved :
        (u : Entity) (row : Option Entity) {last : Option (ℕ × State)} (b : Bool)
        → seen row ≡ last
        → seen (if b then some u else row) ≡ (if b then some (u.version, u.state) else last)
    moved u row true h = refl
    moved u row false h = h

    counted :
        (u : Entity) (row : Option Entity) (m : ℕ) {n : ℕ} (b : Bool)
        → u.version ≡ m + 1
        → (b ≡ true → m ≡ entity_version row)
        → entity_version row ≡ n
        → entity_version (if b then some u else row) ≡ (if b then n + 1 else n)
    counted u row m true e same h = omega (arith, e, same refl, h)
    counted u row m false e same h = h
