-- ===== src/Store/Runs.antt =====
-- Runs of the store: sequences of its operations, with the crashes that may fall into them.
use mathlib.Core.List.{append-nil, append_assoc}
use nix_ai.Store.{
  transition_tx, Crash, transition, StateDb, report_projection, Request, Transition, crashed,
  find_command, no_crash, before_commit, is_same_command, after_commit, transition_new,
}
use nix_ai.Store.Restore.{restore, Backup}
use nix_ai.Store.{reset_for_test}
use nix_ai.Store.Bytes.{put_evidence, put_evidence-same}
use nix_ai.Table.{get}
use nix_ai.Prelude.{
  Result, ◌≡◌, String, ℕ, [], inl, ◌⊎◌, ok, true, false, arith, sym, some, none, Bool, err, inr,
  if◌then◌else◌, refl, integrity_error, Option, is_some, List, ◌∙◌, ap, ◌++◌,
}
use nix_ai.Store.Log.{
  IsLogged, latest, rows_of, AreOnce, advanced, transition_new-advanced, advanced-IsLogged,
}
use nix_ai.Domain.{Correlation, EvidenceMetadata}
use mathlib.Core.Path.{subst}

replay_keeps :
    (q : Request) (t : Transition) (transition_id : String) (occurred_at : ℕ) (crash : Crash)
    (db : StateDb)
    → (crashed crash true db (transition_tx q transition_id occurred_at (some t) db)).1 ≡ db
unfolding transition_tx
replay_keeps q t transition_id occurred_at crash db = from crash (is_same_command q t)
  where
    from :
        (crash : Crash) (b : Bool)
        → (crashed crash true db (
            if b
            then ok (t, db)
            else err (integrity_error "idempotency key reused for a different command"))).1
          ≡ db
    from no_crash true = refl
    from no_crash false = refl
    from before_commit true = refl
    from before_commit false = refl
    from after_commit true = refl
    from after_commit false = refl

new_cases :
    (crash : Crash) (db : StateDb) (v : Result (Transition × StateDb))
    → ((crashed crash false db v).1 ≡ db)
      ⊎ ((t : Transition) × (v ≡ ok (t, (crashed crash false db v).1)))
new_cases crash db (err e) = inl refl
new_cases no_crash db (ok (t, d)) = inr (t, refl)
new_cases before_commit db (ok (t, d)) = inl refl
new_cases after_commit db (ok (t, d)) = inr (t, refl)

-- What `transition` leaves behind it, whatever it answers and wherever it crashes: the tables as
-- they were, or those of a new transition of a command that had no row.
transition-cases :
    (q : Request) (transition_id : String) (occurred_at : ℕ) (crash : Crash) (db : StateDb)
    → ((transition q transition_id occurred_at crash db).1 ≡ db)
      ⊎ ((find_command q.command_id db.transitions ≡ none)
          × (advanced q transition_id occurred_at db
              ≡ (transition q transition_id occurred_at crash db).1))
unfolding transition transition_tx
transition-cases q transition_id occurred_at crash db =
    from (find_command q.command_id db.transitions) refl
  where
    from :
        (o : Option Transition)
        → find_command q.command_id db.transitions ≡ o
        → ((crashed crash (is_some o) db (transition_tx q transition_id occurred_at o db)).1 ≡ db)
          ⊎ ((find_command q.command_id db.transitions ≡ none)
              × (advanced q transition_id occurred_at db
                  ≡ (crashed crash
                      (is_some o)
                      db
                      (transition_tx q transition_id occurred_at o db)).1))
    from (some t) e = inl (replay_keeps q t transition_id occurred_at crash db)
    from none e = elim (new_cases crash db (transition_new q transition_id occurred_at db)) [
      | inl kept ↦ inl kept
      | inr (t, h) ↦ inr (e, transition_new-advanced q transition_id occurred_at db _ t h)
    ]

-- An operation of a store that was constructed without recovery mode and without authority to reset,
-- as both are by default: there `restore` and `reset_for_test` change no table.
pub data Step : StateDb → StateDb → Type 0 where
  moved :
      (q : Request) (transition_id : String) (occurred_at : ℕ) (crash : Crash) (db : StateDb)
      → Step db ((transition q transition_id occurred_at crash db).1)
  reported :
      (name : String) (source projected : ℕ) (db : StateDb) {db' : StateDb}
      → report_projection name source projected db ≡ ok db'
      → Step db db'
  added :
      (sha256 : String → String) (byte_len : String → ℕ) (limit : ℕ)
      (put_content : String → String → Correlation → Result String)
      (get_content : String → Result (ℕ × String)) (content : String) (metadata : EvidenceMetadata)
      (crash : Bool) (db : StateDb) {db' : StateDb} {id : String}
      → put_evidence sha256 byte_len limit put_content get_content content metadata crash db
        ≡ ok (id, db')
      → Step db db'
  restored :
      (sha256 : String → String) (byte_len : String → ℕ) (b64decode : String → Option String)
      (is_uuid : String → Bool) (encoded_len : Backup → ℕ)
      (put_content : String → String → String → Result String) (backup : Backup) (db : StateDb)
      {db' : StateDb}
      → restore sha256 byte_len b64decode is_uuid encoded_len put_content false backup db ≡ ok db'
      → Step db db'
  reset : (db : StateDb) {db' : StateDb} → reset_for_test false db ≡ ok db' → Step db db'

pub data Reach (s : StateDb) : StateDb → Type 0 where
  here : Reach s s
  next : {d e : StateDb} → Reach s d → Step d e → Reach s e

-- The tables that no row has been written to.
abbrev pub IsFresh : StateDb → Type 0
IsFresh db = (db.entities ≡ []) × (db.transitions ≡ [])

-- Tables with the same entities and the same log.
IsLogged-same :
    {db db' : StateDb}
    → db'.entities ≡ db.entities
    → db'.transitions ≡ db.transitions
    → IsLogged db
    → IsLogged db'
IsLogged-same e t logged = record {
  states = λ k. rw (e, t) (logged.states k);
  versions = λ k. rw (e, t) (logged.versions k);
  commands = rw t logged.commands;
}

report_projection-same :
    (name : String) (source projected : ℕ) (db : StateDb) {db' : StateDb}
    → report_projection name source projected db ≡ ok db'
    → (db'.entities ≡ db.entities) × (db'.transitions ≡ db.transitions)
unfolding report_projection
report_projection-same name source projected db h = (ground (arith, h), ground (arith, h))

-- Without recovery mode nothing is restored.
not-restored :
    (sha256 : String → String) (byte_len : String → ℕ) (b64decode : String → Option String)
    (is_uuid : String → Bool) (encoded_len : Backup → ℕ)
    (put_content : String → String → String → Result String) (backup : Backup) (db db' : StateDb)
    → ¬ (restore sha256 byte_len b64decode is_uuid encoded_len put_content false backup db ≡ ok db')
unfolding restore
not-restored sha256 byte_len b64decode is_uuid encoded_len put_content backup db db' h = cc

not-reset : (db db' : StateDb) → ¬ (reset_for_test false db ≡ ok db')
unfolding reset_for_test
not-reset db db' h = cc

Step-IsLogged : {db db' : StateDb} → Step db db' → IsLogged db → IsLogged db'
Step-IsLogged (moved q transition_id occurred_at crash db) logged =
    elim (transition-cases q transition_id occurred_at crash db) [
      | inl kept ↦ subst IsLogged (sym kept) logged
      | inr (fresh, is) ↦
          subst IsLogged is (advanced-IsLogged q transition_id occurred_at db fresh logged)
    ]
Step-IsLogged (reported name source projected db h) logged =
    let (e, t) = report_projection-same name source projected db h in IsLogged-same e t logged
Step-IsLogged (added sha256 byte_len limit put_content get_content content metadata crash db h)
      logged =
    let (e, t) =
      put_evidence-same sha256 byte_len limit put_content get_content content metadata crash db h in
    IsLogged-same e t logged
Step-IsLogged (restored sha256 byte_len b64decode is_uuid encoded_len put_content backup db {db'} h)
      logged =
    absurd (not-restored sha256 byte_len b64decode is_uuid encoded_len put_content backup db db' h)
Step-IsLogged (reset db {db'} h) logged = absurd (not-reset db db' h)

-- Whatever runs of the operations of a store without recovery mode and reset authority, with
-- whatever crashes, have made of tables with no entity and no row, each entity is in the version and the state that its last row has written, its
-- version is the number of its rows, and no command has two rows.
pub Reach-IsLogged : (s : StateDb) {db : StateDb} → IsFresh s → Reach s db → IsLogged db
unfolding get latest rows_of AreOnce
Reach-IsLogged s fresh here = record {
  states = λ e. rw (fresh.0, fresh.1) refl;
  versions = λ e. rw (fresh.0, fresh.1) refl;
  commands = rw fresh.1 tt;
}
Reach-IsLogged s fresh (next run step) = Step-IsLogged step (Reach-IsLogged s fresh run)

-- The log of the one is that of the other with rows behind it.
abbrev pub IsExtension : StateDb → StateDb → Type 0
IsExtension s db = (rows : List Transition) × (db.transitions ≡ s.transitions ++ rows)

IsExtension-same : (s db : StateDb) → db.transitions ≡ s.transitions → IsExtension s db
IsExtension-same s db e = ([], e ∙ sym (append-nil s.transitions))

Step-IsExtension : {db db' : StateDb} → Step db db' → IsExtension db db'
Step-IsExtension (moved q transition_id occurred_at crash db) =
    elim (transition-cases q transition_id occurred_at crash db) [
      | inl kept ↦
          IsExtension-same db ((transition q transition_id occurred_at crash db).1)
            (ap (λ d. d.transitions) kept)
      | inr (fresh, is) ↦ (_, sym (ap (λ d. d.transitions) is))
    ]
Step-IsExtension (reported name source projected db {db'} h) =
    IsExtension-same db db' (report_projection-same name source projected db {db' = db'} h).1
Step-IsExtension
      (added sha256 byte_len limit put_content get_content content metadata crash db {db'} {id} h) =
    IsExtension-same db db'
      (put_evidence-same sha256 byte_len limit put_content get_content content metadata crash db
        {db' = db'} {id = id} h).1
Step-IsExtension
      (restored sha256 byte_len b64decode is_uuid encoded_len put_content backup db {db'} h) =
    absurd (not-restored sha256 byte_len b64decode is_uuid encoded_len put_content backup db db' h)
Step-IsExtension (reset db {db'} h) = absurd (not-reset db db' h)

-- The log is append-only where the store has no recovery mode and no reset authority: a run of its
-- operations, with whatever crashes, keeps every row and the order of the rows.
pub Reach-IsExtension : (s : StateDb) {db : StateDb} → Reach s db → IsExtension s db
Reach-IsExtension s here = IsExtension-same s s refl
Reach-IsExtension s (next {d} {e} run step) =
    let (rows, is) = Reach-IsExtension s run in
    let (more, also) = Step-IsExtension step in
    (rows ++ more, also ∙ ap (λ x. x ++ more) is ∙ append_assoc s.transitions rows more)
