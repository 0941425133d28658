-- ===== src/Store/Calm.antt =====
-- Calls that return: no statement fails any more, and every guard is passed. A triple whose claim
-- about a failure is `⊥` says that the call does not fail.
use east_api.Prelude.{
  ◌≡◌, ap, sym, subst, Bool, true, false, Option, none, some, List, [], if◌then◌else◌, false≢true,
}
use east_api.Store.{
  World, Error, Result, ok, err, Action, pure, or_raise, raise_if, statement, spent, next_fails,
  later, write, Db, transaction, ◌>>=◌, ◌>>◌,
}
use east_api.Store.Triples.{After, Triple, Triple-bind, Triple-pure}

-- No statement is going to fail.
abbrev pub Calm : World → Type 0
Calm w = w.faults ≡ []

abbrev pub Never : World → Type 0
Never w = ⊥

pub spent-Calm : (w : World) → Calm w → Calm (spent w)
spent-Calm w h = ap later h

if_calm :
    {A : Type 0} (Q : A → Type 0) (fs : List Bool) (x y : A)
    → fs ≡ []
    → Q y
    → Q (if next_fails fs then x else y)
if_calm Q fs x y h q = subst (λ gs. Q (if next_fails gs then x else y)) (sym h) q

module _ {P : World → Type 0} (calm : (w : World) → P w → Calm w) where
  pub statement-returns : ((w : World) → P w → P (spent w)) → Triple P (λ _. P) Never statement
  unfolding ◌>>=◌
  statement-returns keep = record {
    at = λ w h.
        if_calm (After (λ _. P) Never) w.faults (err Error.statement_failed, spent w)
          (ok tt, spent w) (calm w h) (keep w h);
  }

  pub write-returns :
      {Q : World → Type 0} (f : Db → Db)
      → ((w : World) → P w → Q (record (spent w) { db = f w.db }))
      → Triple P (λ _. Q) Never (write f)
  unfolding ◌>>=◌
  write-returns {Q} f hit = record {
    at = λ w h.
        if_calm (After (λ _. Q) Never) w.faults (err Error.statement_failed, spent w)
          (ok tt, record (spent w) { db = f w.db }) (calm w h) (hit w h);
  }

-- A guard whose test is known
pub guard-returns :
    {A : Type 0} {P B : World → Type 0} {G : A → World → Type 0} (b : Bool) (e : Error)
    (k : Action A)
    → b ≡ false
    → Triple P G B k
    → Triple P G B (raise_if b e >> k)
unfolding ◌>>=◌
guard-returns true e k h t = absurd (false≢true (sym h))
guard-returns false e k h t = record { at = λ w p. t.at w p }

pub or_raise-returns :
    {A : Type 0} {P : World → Type 0} (o : Option A) (a : A) (e : Error)
    → o ≡ some a
    → Triple P (λ a' w. P w × (a ≡ a')) Never (or_raise o e)
unfolding ◌>>=◌
or_raise-returns none a e h =
    absurd (false≢true (ap (λ o. elim o [ none ↦ false | some x ↦ true ]) h))
or_raise-returns (some b) a e h = record {
  at = λ w p. (p, ap (λ o. elim o [ none ↦ a | some x ↦ x ]) (sym h));
}

-- What is said of two runs of one call, of which one does not fail
module _ {A : Type 0} (G H : A → World → Type 0) (B : World → Type 0) where
  pub After-returns : (x : Result A × World) → After G B x → After H Never x → After G Never x
  After-returns (ok a, w) g h = g
  After-returns (err e, w) g h = h

keep_After :
    {A : Type 0} (G : A → World → Type 0) (d : Db) (x : Result A × World)
    → After G Never x
    → After G Never (elim x.0 [ ok a ↦ (ok a, x.1) | err e ↦ (err e, record x.1 { db = d }) ])
keep_After G d (ok a, w) h = h
keep_After G d (err e, w) h = h

pub transaction-returns :
    {A : Type 0} {P : World → Type 0} {G : A → World → Type 0} (m : Action A)
    → Triple P G Never m
    → ((a : A) (w : World) → G a w → Calm w)
    → ((a : A) (w : World) → G a w → G a (spent w))
    → Triple P G Never (transaction m)
unfolding transaction
transaction-returns {G} m hm calm keep = record {
  at = λ w p. keep_After G w.db ((m >>= λ a. statement >> pure a) w) (
      (Triple-bind m (λ a. statement >> pure a) hm
          λ a.
            Triple-bind statement (λ _. pure a) (statement-returns (calm a) (keep a))
              λ _. Triple-pure a λ w' h. h).at
        w p);
}
