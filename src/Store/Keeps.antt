-- ===== src/Store/Keeps.antt =====
-- Invariants of actions whose values do not matter, and the rules by which `search` proves them.
use east_api.Prelude.{Option}
use east_api.Store.{World, Db, Error, Action, pure, gets, or_raise, on_option, on_error, ◌>>=◌}
use east_api.Store.Ensures.{
  Ensures, Any, IfSome-Any, Ensures-pure, Ensures-raise, Ensures-gets, Ensures-or_raise, Ensures-if,
  Ensures-raise_if, Ensures-statement, Ensures-bind, Ensures-on_option, Ensures-on_error,
  Ensures-transaction,
}

module _ {P : Db → Type 0} where
  pub gets-Any : {A : Type 0} (f : World → A) → Ensures P Any (gets f)
  gets-Any f = Ensures-gets f (λ w h. tt)

  pub or_raise-Any : {A : Type 0} (o : Option A) (e : Error) → Ensures P Any (or_raise o e)
  or_raise-Any o e = Ensures-or_raise o e (IfSome-Any o)

  pub on_option-Any :
      {A B : Type 0} (o : Option A) (m : Action B) (k : A → Action B)
      → Ensures P Any m
      → ((a : A) → Ensures P Any (k a))
      → Ensures P Any (on_option o m k)
  on_option-Any o m k hm hk = Ensures-on_option o m k (IfSome-Any o) hm (λ a _. hk a)

  pub bind-Any :
      {A B : Type 0} {R : B → Type 0} (m : Action A) (f : A → Action B)
      → Ensures P Any m
      → ((a : A) → Ensures P R (f a))
      → Ensures P R (m >>= f)
  bind-Any m f hm hf = Ensures-bind m f hm (λ a _. hf a)

  pub on_error-Any :
      {A B : Type 0} (m : Action A) (h : Error → Action B) (k : A → Action B)
      → Ensures P Any m
      → ((e : Error) → Ensures P Any (h e))
      → ((a : A) → Ensures P Any (k a))
      → Ensures P Any (on_error m h k)
  on_error-Any m h k hm hh hk = Ensures-on_error m h k hm hh (λ a _. hk a)

  pub pure-Any : {A : Type 0} (a : A) → Ensures P Any (pure a)
  pure-Any a = Ensures-pure a tt

pub ruleset any_rules = (
  gets-Any, or_raise-Any, on_option-Any, on_error-Any, pure-Any, Ensures-raise, Ensures-raise_if,
  Ensures-statement, Ensures-if, Ensures-transaction, bind-Any,
)
