-- ===== src/Store/Triples.antt =====
-- Triples of actions, about the whole world: what holds before a call, after it returns, and after
-- it fails. There is one rule for each way to build an action.
use east_api.Prelude.{◌≡◌, refl, Bool, true, false, Option, none, some, if◌then◌else◌, if_both}
use east_api.Store.{
  World, Error, Result, ok, err, Action, pure, raise, gets, or_raise, raise_if, statement, spent,
  next_fails, write, Db, on_error, transaction, ◌>>=◌, ◌>>◌,
}

-- What a call leaves when it returns, and when it fails.
abbrev pub After :
    {A : Type 0} → (A → World → Type 0) → (World → Type 0) → Result A × World → Type 0
After G B (ok a, w) = G a w
After G B (err e, w) = B w

pub record Triple {A : Type 0} (P : World → Type 0) (G : A → World → Type 0) (B : World → Type 0)
    (m : Action A) : Type 0 where
  pub at : (w : World) → P w → After G B (m w)

module _ {A : Type 0} {P : World → Type 0} {G : A → World → Type 0} {B : World → Type 0} where
  pub Triple-pure : (a : A) → ((w : World) → P w → G a w) → Triple P G B (pure a)
  unfolding ◌>>=◌
  Triple-pure a h = record { at = h }

  pub Triple-raise : (e : Error) → ((w : World) → P w → B w) → Triple P G B (raise e)
  unfolding ◌>>=◌
  Triple-raise e h = record { at = h }

  -- Each branch may use how the test came out.
  pub Triple-if :
      (b : Bool) (m n : Action A)
      → (b ≡ true → Triple P G B m)
      → (b ≡ false → Triple P G B n)
      → Triple P G B (if b then m else n)
  Triple-if true m n hm hn = hm refl
  Triple-if false m n hm hn = hn refl

module _ {A : Type 0} {P B : World → Type 0} (spill : (w : World) → P w → B w) where
  pub Triple-gets : (f : World → A) → Triple P (λ _. P) B (gets f)
  unfolding ◌>>=◌
  Triple-gets f = record { at = λ w h. h }

  pub Triple-or_raise : (o : Option A) (e : Error) → Triple P (λ _. P) B (or_raise o e)
  unfolding ◌>>=◌
  Triple-or_raise none e = record { at = spill }
  Triple-or_raise (some a) e = record { at = λ w h. h }

module _ {P B : World → Type 0} (spill : (w : World) → P w → B w) where
  pub Triple-raise_if : (b : Bool) (e : Error) → Triple P (λ _. P) B (raise_if b e)
  unfolding ◌>>=◌
  Triple-raise_if true e = record { at = spill }
  Triple-raise_if false e = record { at = λ w h. h }

  pub Triple-statement : ((w : World) → P w → P (spent w)) → Triple P (λ _. P) B statement
  unfolding ◌>>=◌
  Triple-statement keep = record {
    at = λ w h.
        if_both (After (λ _. P) B) (next_fails w.faults) (spill (spent w) (keep w h)) (keep w h);
  }

module _ {P B : World → Type 0} {Q : World → Type 0} where
  pub Triple-write :
      (f : Db → Db)
      → ((w : World) → P w → B (spent w))
      → ((w : World) → P w → Q (record (spent w) { db = f w.db }))
      → Triple P (λ _. Q) B (write f)
  unfolding ◌>>=◌
  Triple-write f spill hit = record {
    at = λ w h. if_both (After (λ _. Q) B) (next_fails w.faults) (spill w h) (hit w h);
  }

-- What is read is known after.
pub Triple-get :
    {A : Type 0} {P B : World → Type 0} (f : World → A)
    → Triple P (λ a w. P w × (f w ≡ a)) B (gets f)
unfolding ◌>>=◌
Triple-get f = record { at = λ w h. (h, refl) }

pub Triple-or_some :
    {A : Type 0} {P B : World → Type 0} (o : Option A) (e : Error)
    → ((w : World) → P w → B w)
    → Triple P (λ a w. P w × (o ≡ some a)) B (or_raise o e)
unfolding ◌>>=◌
Triple-or_some none e spill = record { at = spill }
Triple-or_some (some a) e spill = record { at = λ w h. (h, refl) }

-- What follows a guard may use that its test failed.
pub Triple-guard :
    {A : Type 0} {P B : World → Type 0} {G : A → World → Type 0} (b : Bool) (e : Error)
    (k : Action A)
    → ((w : World) → P w → B w)
    → (b ≡ false → Triple P G B k)
    → Triple P G B (raise_if b e >> k)
unfolding ◌>>=◌
Triple-guard true e k spill hk = record { at = λ w h. spill w h }
Triple-guard false e k spill hk = record { at = λ w h. (hk refl).at w h }

-- Nothing is known, and nothing is claimed.
abbrev pub Anything : World → Type 0
Anything w = Unit {0}

pub Triple-Anything :
    {A : Type 0} {P : World → Type 0} (m : Action A) → Triple P (λ _. Anything) Anything m
Triple-Anything m = record { at = λ w h. go (m w) }
  where
    go : {A : Type 0} (x : Result A × World) → After (λ _. Anything) Anything x
    go (ok a, w) = tt
    go (err e, w) = tt

bind-After :
    {A C : Type 0} {B : World → Type 0} {G : A → World → Type 0} {H : C → World → Type 0}
    (f : A → Action C) (r : Result A × World)
    → After G B r
    → ((a : A) → Triple (G a) H B (f a))
    → After H B (elim r.0 [ ok a ↦ f a r.1 | err e ↦ (err e, r.1) ])
bind-After f (ok a, w) h k = (k a).at w h
bind-After f (err e, w) h k = h

pub Triple-bind :
    {A C : Type 0} {P B : World → Type 0} {G : A → World → Type 0} {H : C → World → Type 0}
    (m : Action A) (f : A → Action C)
    → Triple P G B m
    → ((a : A) → Triple (G a) H B (f a))
    → Triple P H B (m >>= f)
unfolding ◌>>=◌
Triple-bind m f hm k = record { at = λ w h. bind-After f (m w) (hm.at w h) k }

error-After :
    {A C : Type 0} {B H : World → Type 0} {G : A → World → Type 0} {K : C → World → Type 0}
    (h : Error → Action C) (k : A → Action C) (r : Result A × World)
    → After G B r
    → ((e : Error) → Triple B K H (h e))
    → ((a : A) → Triple (G a) K H (k a))
    → After K H (elim r.0 [ ok a ↦ k a r.1 | err e ↦ h e r.1 ])
error-After h k (ok a, w) p hh hk = (hk a).at w p
error-After h k (err e, w) p hh hk = (hh e).at w p

pub Triple-on_error :
    {A C : Type 0} {P B H : World → Type 0} {G : A → World → Type 0} {K : C → World → Type 0}
    (m : Action A) (h : Error → Action C) (k : A → Action C)
    → Triple P G B m
    → ((e : Error) → Triple B K H (h e))
    → ((a : A) → Triple (G a) K H (k a))
    → Triple P K H (on_error m h k)
unfolding on_error
Triple-on_error m h k hm hh hk = record { at = λ w p. error-After h k (m w) (hm.at w p) hh hk }

undo-After :
    {A : Type 0} (G : A → World → Type 0) (d : Db) (x : Result A × World)
    → After G Anything x
    → After G
        (λ w'. w'.db ≡ d)
        (elim x.0 [ ok a ↦ (ok a, x.1) | err e ↦ (err e, record x.1 { db = d }) ])
undo-After G d (ok a, w) h = h
undo-After G d (err e, w) h = refl

-- What a transaction leaves: a failure has changed no table, whatever it has done before it failed.
pub transaction-After :
    {A : Type 0} {P : World → Type 0} {G : A → World → Type 0} (m : Action A)
    → Triple P G Anything m
    → ((a : A) (w : World) → G a w → G a (spent w))
    → (w : World) → P w
    → After G (λ w'. w'.db ≡ w.db) (transaction m w)
unfolding transaction
transaction-After m hm keep w p = undo-After _ w.db ((m >>= λ a. statement >> pure a) w) (
    (Triple-bind m (λ a. statement >> pure a) hm
        λ a.
          Triple-bind statement (λ _. pure a) (Triple-statement (λ _ _. tt) (keep a))
            λ _. Triple-pure a λ w' h. h).at
      w p)
