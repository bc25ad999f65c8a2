-- ===== src/Lifecycle/Wakes/Leases.antt =====
-- Theorems on `lease_wake`.
use mathlib.Core.Path.{subst}
use mathlib.Core.Option.{some-injective}
use nix_ai.Table.{get, put, IsTable, Table}
use nix_ai.Table.Laws.{pick-get, get-put_ne, get-put_self, put-IsTable}
use nix_ai.Lifecycle.Wakes.{next_due, lease_wake, is_due, leased_to, due_before, lease_row}
use nix_ai.Prelude.{
  String, Bool, ℕ, ◌≡◌, some, ok, true, false, ◌&&◌, arith, ◌+◌, not, ◌<◌, Option, ◌≢◌, ap, none,
  sym, ◌∙◌, ok_pair,
}
use nix_ai.Lifecycle.Db.{Db, Wake}

next_due-get :
    (locked : String → Bool) (now : ℕ) (t : Table Wake) {k : String} {w : Wake}
    → IsTable t
    → next_due locked now t ≡ some (k, w)
    → (get k t ≡ some w) × (is_due now w ≡ true) × (locked k ≡ false)
unfolding next_due
next_due-get locked now t {k} {w} h e =
    let found = pick-get (λ j v. not (locked j) && is_due now v) due_before t {k = k} {v = w} h e in
    (
      found.0,
      and_right (not (locked k)) (is_due now w) found.1,
      and_left (locked k) (is_due now w) found.1,
    )
  where
    and_right : (a b : Bool) → (a && b) ≡ true → b ≡ true
    and_right a b h = ground arith

    and_left : (a b : Bool) → (not a && b) ≡ true → a ≡ false
    and_left a b h = ground arith

lease_row-eq-ok :
    (worker : String) (expires : ℕ) (o : Option (String × Wake)) (db db' : Db) (k : String)
    (w : Wake)
    → lease_row worker expires o db ≡ ok (some (k, w), db')
    → (old : Wake) × (o ≡ some (k, old))
      × (w ≡ leased_to worker expires old)
      × (db'.wakes ≡ put k w db.wakes)
unfolding lease_row
lease_row-eq-ok worker expires none db db' k w h = absurd (ground arith)
lease_row-eq-ok worker expires (some (j, old)) db db' k w h =
    (old, ground arith, ground arith, ground arith)

-- What `lease_wake` returns: a wake that was due and that no other transaction holds, given to the
-- worker until `now+lease_seconds`; the rest of the table is as it was.
pub lease_wake-grants :
    (locked : String → Bool) (worker : String) (now lease_seconds : ℕ) (db db' : Db) (k : String)
    (w : Wake)
    → IsTable db.wakes
    → lease_wake locked worker now lease_seconds db ≡ ok (some (k, w), db')
    → (old : Wake) × (get k db.wakes ≡ some old)
      × (is_due now old ≡ true)
      × (locked k ≡ false)
      × (w ≡ leased_to worker (now + lease_seconds) old)
      × (db'.wakes ≡ put k w db.wakes)
unfolding lease_wake
lease_wake-grants locked worker now lease_seconds db db' k w t h =
    let (old, picked, given, written) =
      lease_row-eq-ok worker (now + lease_seconds) (next_due locked now db.wakes) db db' k w h in
    let (found, due, free) = next_due-get locked now db.wakes {k = k} {w = old} t picked in
    (old, found, due, free, given, written)

not-due_of_leased :
    (worker : String) (expires now : ℕ) (w : Wake)
    → now < expires
    → is_due now (leased_to worker expires w) ≡ false
unfolding leased_to
not-due_of_leased worker expires now w h = ground arith

-- Whatever `lease_wake` is called, by whatever workers, at times before `until`.
pub data Leases (until : ℕ) (db : Db) : Db → Type 0 where
  no_lease : Leases until db db
  one_more :
      (locked : String → Bool) (worker : String) (now seconds : ℕ) (answer : Option (String × Wake))
      {d d' : Db}
      → Leases until db d
      → now < until
      → lease_wake locked worker now seconds d ≡ ok (answer, d')
      → Leases until db d'

lease_row-none :
    (worker : String) (expires : ℕ) (o : Option (String × Wake)) (db db' : Db)
    → lease_row worker expires o db ≡ ok (none, db')
    → db ≡ db'
unfolding lease_row
lease_row-none worker expires none db db' h = (ok_pair h).1
lease_row-none worker expires (some (j, old)) db db' h = absurd (ground arith)

-- The row of a leased wake, in a table whose primary key holds.
abbrev IsLeased : String → Wake → Db → Type 0
IsLeased k w db = IsTable db.wakes × (get k db.wakes ≡ some w)

-- A call before the lease expires grants another wake, and leaves the leased one.
lease_wake-other :
    (locked : String → Bool) (worker owner : String) (now seconds until : ℕ) (old : Wake)
    (db db' : Db) (k j : String) (v : Wake)
    → IsLeased k (leased_to owner until old) db
    → now < until
    → lease_wake locked worker now seconds db ≡ ok (some (j, v), db')
    → (j ≢ k) × IsLeased k (leased_to owner until old) db'
lease_wake-other locked worker owner now seconds until old db db' k j v (t, leased) early h =
    let (found, is, due, free, given, written) =
      lease_wake-grants locked worker now seconds db db' j v t h in
    let other : j ≢ k = λ same.
      not_due_twice now (leased_to owner until old) found (get k db.wakes) leased
        (ap (λ x. get x db.wakes) (sym same) ∙ is) (not-due_of_leased owner until now old early)
        due in
    (
      other,
      (
        rw written (put-IsTable j v db.wakes t),
        rw written (get-put_ne j k v db.wakes other ∙ leased),
      ),
    )
  where
    not_due_twice :
        (now : ℕ) (a c : Wake) (o : Option Wake)
        → o ≡ some a
        → o ≡ some c
        → is_due now a ≡ false
        → is_due now c ≡ true
        → ⊥
    not_due_twice now a c o p q f t = cc (ap (is_due now) (some-injective a c (sym p ∙ q)))

lease_wake-IsLeased :
    (locked : String → Bool) (worker owner : String) (now seconds until : ℕ) (old : Wake)
    (answer : Option (String × Wake)) (db db' : Db) (k : String)
    → IsLeased k (leased_to owner until old) db
    → now < until
    → lease_wake locked worker now seconds db ≡ ok (answer, db')
    → IsLeased k (leased_to owner until old) db'
unfolding lease_wake
lease_wake-IsLeased locked worker owner now seconds until old none db db' k leased early h =
    subst (IsLeased k (leased_to owner until old))
      (lease_row-none worker (now + seconds) (next_due locked now db.wakes) db db' h) leased
lease_wake-IsLeased locked worker owner now seconds until old (some (j, v)) db db' k leased early
      h =
    (lease_wake-other locked worker owner now seconds until old db db' k j v leased early h).1

Leases-IsLeased :
    (owner : String) (until : ℕ) (old : Wake) (k : String) {db d : Db}
    → IsLeased k (leased_to owner until old) db
    → Leases until db d
    → IsLeased k (leased_to owner until old) d
Leases-IsLeased owner until old k leased no_lease = leased
Leases-IsLeased owner until old k leased
      (one_more locked worker now seconds answer {d} {d'} run early h) =
    lease_wake-IsLeased locked worker owner now seconds until old answer d d' k
      (Leases-IsLeased owner until old k leased run) early h

-- Among the calls of `lease_wake`, whichever they are and whoever makes them, a wake that one has
-- leased is leased by no later one before the lease expires. No other operation is among the calls.
pub lease_wake_exclusive :
    (locked locked' : String → Bool) (worker worker' : String) (now now' seconds seconds' : ℕ)
    (db db' d db'' : Db) (k j : String) (w v : Wake)
    → IsTable db.wakes
    → lease_wake locked worker now seconds db ≡ ok (some (k, w), db')
    → Leases (now + seconds) db' d
    → now' < now + seconds
    → lease_wake locked' worker' now' seconds' d ≡ ok (some (j, v), db'')
    → j ≢ k
lease_wake_exclusive locked locked' worker worker' now now' seconds seconds' db db' d db'' k j w v t
      h run early h' =
    let (old, found, due, free, given, written) =
      lease_wake-grants locked worker now seconds db db' k w t h in
    let leased : IsLeased k (leased_to worker (now + seconds) old) db' = (
      rw written (put-IsTable k w db.wakes t),
      rw written (get-put_self k w db.wakes) ∙ ap some given,
    ) in
    (lease_wake-other locked' worker' worker now' seconds' (now + seconds) old d db'' k j v
      (Leases-IsLeased worker (now + seconds) old k leased run) early h').0
