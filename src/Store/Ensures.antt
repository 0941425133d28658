-- ===== src/Store/Ensures.antt =====
-- Invariants of actions, one rule for each way to build one. The invariant is of the tables, so what
-- becomes of the schedule of faults does not matter, and a rolled back transaction keeps it.
use east_api.Prelude.{◌≡◌, refl, Bool, true, false, Option, none, some, if◌then◌else◌, if_both}
use east_api.Store.{
  World, Db, Error, Result, ok, err, Action, pure, raise, gets, or_raise, raise_if, statement,
  write, next_fails, on_option, on_error, transaction, ◌>>=◌, ◌>>◌,
}

-- After the call the tables satisfy `P`, and the value that it returns satisfies `Q`.
abbrev pub Post : {A : Type 0} → (Db → Type 0) → (A → Type 0) → Result A × World → Type 0
Post P Q (ok a, w) = P w.db × Q a
Post P Q (err e, w) = P w.db

-- Whether the call returns or raises, `P` is kept, and a value that it returns satisfies `Q`.
pub record Ensures {A : Type 0} (P : Db → Type 0) (Q : A → Type 0) (m : Action A) : Type 0 where
  pub at : (w : World) → P w.db → Post P Q (m w)

abbrev pub Any : {A : Type 0} → A → Type 0
Any a = Unit {0}

-- A value that may be missing satisfies `Q` where it is there.
abbrev pub IfSome : {A : Type 0} → (A → Type 0) → Option A → Type 0
IfSome Q none = Unit {0}
IfSome Q (some a) = Q a

pub IfSome-Any : {A : Type 0} (o : Option A) → IfSome Any o
IfSome-Any none = tt
IfSome-Any (some a) = tt

module _ {A : Type 0} {P : Db → Type 0} {Q : A → Type 0} where
  pub Ensures-pure : (a : A) → Q a → Ensures P Q (pure a)
  unfolding ◌>>=◌
  Ensures-pure a q = record { at = λ w h. (h, q) }

  pub Ensures-raise : (e : Error) → Ensures P Q (raise e)
  unfolding ◌>>=◌
  Ensures-raise e = record { at = λ w h. h }

  pub Ensures-gets : (f : World → A) → ((w : World) → P w.db → Q (f w)) → Ensures P Q (gets f)
  unfolding ◌>>=◌
  Ensures-gets f q = record { at = λ w h. (h, q w h) }

  pub Ensures-or_raise : (o : Option A) (e : Error) → IfSome Q o → Ensures P Q (or_raise o e)
  unfolding ◌>>=◌
  Ensures-or_raise none e q = record { at = λ w h. h }
  Ensures-or_raise (some a) e q = record { at = λ w h. (h, q) }

  pub Ensures-if :
      (b : Bool) (m n : Action A) → Ensures P Q m → Ensures P Q n → Ensures P Q (if b then m else n)
  Ensures-if b m n hm hn = if_both (Ensures P Q) b hm hn

module _ {P : Db → Type 0} where
  pub Ensures-raise_if : (b : Bool) (e : Error) → Ensures P Any (raise_if b e)
  unfolding ◌>>=◌
  Ensures-raise_if true e = record { at = λ w h. h }
  Ensures-raise_if false e = record { at = λ w h. (h, tt) }

  pub Ensures-statement : Ensures P Any statement
  unfolding ◌>>=◌
  Ensures-statement = record { at = λ w h. if_both (Post P Any) (next_fails w.faults) h (h, tt) }

  pub Ensures-write : (f : Db → Db) → ((d : Db) → P d → P (f d)) → Ensures P Any (write f)
  unfolding ◌>>=◌
  Ensures-write f keep = record {
    at = λ w h. if_both (Post P Any) (next_fails w.faults) h (keep w.db h, tt);
  }

-- What follows a guard may use that its test failed.
pub Ensures-guard :
    {A : Type 0} {P : Db → Type 0} {Q : A → Type 0} (b : Bool) (e : Error) (k : Action A)
    → (b ≡ false → Ensures P Q k)
    → Ensures P Q (raise_if b e >> k)
unfolding ◌>>=◌
Ensures-guard true e k hk = record { at = λ w h. h }
Ensures-guard false e k hk = record { at = λ w h. (hk refl).at w h }

module _ {A B : Type 0} {P : Db → Type 0} {Q : A → Type 0} {R : B → Type 0} where
  bind-Post :
      (f : A → Action B) (r : Result A × World)
      → Post P Q r
      → ((a : A) → Q a → Ensures P R (f a))
      → Post P R (elim r.0 [ ok a ↦ f a r.1 | err e ↦ (err e, r.1) ])
  bind-Post f (ok a, w) h k = (k a h.1).at w h.0
  bind-Post f (err e, w) h k = h

  pub Ensures-bind :
      (m : Action A) (f : A → Action B)
      → Ensures P Q m
      → ((a : A) → Q a → Ensures P R (f a))
      → Ensures P R (m >>= f)
  unfolding ◌>>=◌
  Ensures-bind m f hm k = record { at = λ w h. bind-Post f (m w) (hm.at w h) k }

module _ {A B : Type 0} {P : Db → Type 0} {Q : A → Type 0} {R : B → Type 0} where
  pub Ensures-on_option :
      (o : Option A) (m : Action B) (k : A → Action B)
      → IfSome Q o
      → Ensures P R m
      → ((a : A) → Q a → Ensures P R (k a))
      → Ensures P R (on_option o m k)
  unfolding on_option
  Ensures-on_option none m k q hm hk = hm
  Ensures-on_option (some a) m k q hm hk = hk a q

  error-Post :
      (h : Error → Action B) (k : A → Action B) (r : Result A × World)
      → Post P Q r
      → ((e : Error) → Ensures P R (h e))
      → ((a : A) → Q a → Ensures P R (k a))
      → Post P R (elim r.0 [ ok a ↦ k a r.1 | err e ↦ h e r.1 ])
  error-Post h k (ok a, w) p hh hk = (hk a p.1).at w p.0
  error-Post h k (err e, w) p hh hk = (hh e).at w p

  pub Ensures-on_error :
      (m : Action A) (h : Error → Action B) (k : A → Action B)
      → Ensures P Q m
      → ((e : Error) → Ensures P R (h e))
      → ((a : A) → Q a → Ensures P R (k a))
      → Ensures P R (on_error m h k)
  unfolding on_error
  Ensures-on_error m h k hm hh hk = record { at = λ w p. error-Post h k (m w) (hm.at w p) hh hk }

rollback-Post :
    {A : Type 0} (P : Db → Type 0) (Q : A → Type 0) (w : World) (r : Result A × World)
    → P w.db
    → Post P Q r
    → Post P Q (elim r.0 [ ok a ↦ (ok a, r.1) | err e ↦ (err e, record r.1 { db = w.db }) ])
rollback-Post P Q w (ok a, w') h p = p
rollback-Post P Q w (err e, w') h p = h

pub Ensures-transaction :
    {A : Type 0} {P : Db → Type 0} {Q : A → Type 0} (m : Action A)
    → Ensures P Q m
    → Ensures P Q (transaction m)
unfolding transaction
Ensures-transaction {P} {Q} m hm = record {
  at = λ w h. rollback-Post P Q w ((m >>= λ a. statement >> pure a) w) h (
      (Ensures-bind m (λ a. statement >> pure a) hm
          λ a q. Ensures-bind statement (λ _. pure a) Ensures-statement λ _ _. Ensures-pure a q).at
        w h);
}
