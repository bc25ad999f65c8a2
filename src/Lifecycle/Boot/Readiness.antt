-- ===== src/Lifecycle/Boot/Readiness.antt =====
-- What the boot report of `recover` says of the effects.
use nix_ai.Lifecycle.Boot.{
  count, effects_classified, counted, Report, BootTables, is_nonterminal, is_inconsistent,
}
use nix_ai.Table.{get, Table}
use nix_ai.Prelude.{
  ◌∷◌, [], eq_iff, String, ◌≡◌, ℕ, Bool, true, beq→eq, some, false, Bool-cases, ◌&&◌, ◌==◌, arith,
  inl, beq, inr, refl,
}
use nix_ai.Lifecycle.Db.{Db, Effect, EffectState}
use mathlib.Core.Path.{subst}

pair : {A B : Type 0} {a a' : A} {b b' : B} → a ≡ a' → b ≡ b' → ◌≡◌ {A = A × B} (a, b) (a', b')
pair e f = λ i. (e i, f i)

-- A count of nothing leaves no row that satisfies the condition.
count-zero :
    {V : Type 0} (p : String × V → Bool) (t : Table V) {k : String} {v : V}
    → count p t ≡ 0
    → get k t ≡ some v
    → p (k, v) ≡ false
unfolding count get
count-zero {V} p [] none_of found = cc
count-zero {V} p ((i, w) ∷ t) {k} {v} none_of found = elim (Bool-cases (i == k)) [
  | inl same ↦
      let at : ◌≡◌ {A = String × V} (i, w) (k, v) =
        pair ((eq_iff i k).0 same) (ground (arith, found, same)) in
      subst (λ x. p x ≡ false) at (ground (arith, none_of))
  | inr other ↦ count-zero p t (ground (arith, none_of)) (ground (arith, found, other))
]

classified :
    (r : Report)
    → effects_classified r ≡ true
    → (r.nonterminal_effects ≡ 0) × (r.inconsistent_effects ≡ 0) × (r.missing_effect_guards ≡ 0)
unfolding effects_classified
classified r h =
    let (a, b, c) =
      three (beq r.unclassified_effects 0) (beq r.nonterminal_effects 0)
        (beq r.inconsistent_effects 0) (beq r.canonical_inconsistent_effects 0)
        (beq r.missing_effect_guards 0) h in
    (
      beq→eq r.nonterminal_effects 0 a,
      beq→eq r.inconsistent_effects 0 b,
      beq→eq r.missing_effect_guards 0 c,
    )
  where
    three :
        (p q r s t : Bool)
        → (p && (q && (r && (s && t)))) ≡ true
        → (q ≡ true) × (r ≡ true) × (t ≡ true)
    three p q r s t h = (ground arith, ground arith, ground arith)

-- A report that calls the effects classified has found every effect ended, and in the state that its
-- last provider transition projects to.
pub effects_classified-ended :
    (boot : BootTables) (expired now : ℕ) (db : Db) (k : String) (e : Effect)
    → effects_classified (counted boot expired now db) ≡ true
    → get k db.durable_effects ≡ some e
    → (is_nonterminal (k, e) ≡ false) × (is_inconsistent db.provider_transitions (k, e) ≡ false)
unfolding counted
effects_classified-ended boot expired now db k e h found =
    let (nonterminal, inconsistent, _) = classified (counted boot expired now db) h in
    (
      count-zero is_nonterminal db.durable_effects nonterminal found,
      count-zero (is_inconsistent db.provider_transitions) db.durable_effects inconsistent found,
    )

-- A report over tables with an effect that was rejected does not call the effects classified, since
-- such an effect is in no state that the count takes for an end.
pub effects_classified-rejected :
    (boot : BootTables) (expired now : ℕ) (db : Db) (k : String) (e : Effect)
    → get k db.durable_effects ≡ some e
    → e.state ≡ EffectState.rejected
    → effects_classified (counted boot expired now db) ≡ false
effects_classified-rejected boot expired now db k e found is =
    elim (Bool-cases (effects_classified (counted boot expired now db))) [
      | inl classified_ ↦ absurd (
          ground (
            arith,
            (effects_classified-ended boot expired now db k e classified_ found).0,
            nonterminal,
          ))
      | inr open_ ↦ open_
    ]
  where
    nonterminal : is_nonterminal (k, e) ≡ true
    nonterminal = rw is refl
