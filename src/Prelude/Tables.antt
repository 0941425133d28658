-- ===== src/Prelude/Tables.antt =====
-- Database tables as lists of rows: `First`, `Find`, `Updates`, `Count` and `Delete` of a query
-- are functions of the test that the WHERE clause makes.
use Prim.Native.Nat.{ℕ, suc}
use mathlib.Core.Path.{◌≡◌, refl}
use mathlib.Core.Bool.{Bool, true, false}
use mathlib.Core.Option
use mathlib.Core.Option.{Option, none, some}
use mathlib.Core.List.{List, [], ◌∷◌}
use native.Mathlib.Omega.{arith}
use east_api.Prelude.Tests.{if◌then◌else◌}

module _ {ℓ} {A : Type ℓ} where
  -- The first row that the test accepts.
  abbrev pub find : (A → Bool) → List A → Option A
  find p [] = none
  find p (x ∷ xs) = if p x then some x else find p xs

  -- Every row that the test accepts, in order.
  abbrev pub select : (A → Bool) → List A → List A
  select p [] = []
  select p (x ∷ xs) = let rest = select p xs in if p x then x ∷ rest else rest

  -- UPDATE: the function is applied to every row that the test accepts.
  abbrev pub update_where : (A → Bool) → (A → A) → List A → List A
  update_where p f [] = []
  update_where p f (x ∷ xs) = (if p x then f x else x) ∷ update_where p f xs

  abbrev pub count_where : (A → Bool) → List A → ℕ
  count_where p [] = 0
  count_where p (x ∷ xs) = let rest = count_where p xs in if p x then suc rest else rest

  -- An update that keeps the key is what a lookup by that key then sees.
  pub find-update_where :
      (p : A → Bool) (f : A → A)
      → ((a : A) → p (f a) ≡ p a)
      → (xs : List A) → find p (update_where p f xs) ≡ Option.map f (find p xs)
  find-update_where p f keep [] = refl
  find-update_where p f keep (x ∷ xs) = ground (arith, keep x, find-update_where p f keep xs)

  -- A lookup by another key sees nothing of it.
  pub find-update_where_other :
      (p q : A → Bool) (f : A → A)
      → ((a : A) → q (f a) ≡ q a)
      → ((a : A) → q a ≡ true → p a ≡ false)
      → (xs : List A) → find q (update_where p f xs) ≡ find q xs
  find-update_where_other p q f keep apart [] = refl
  find-update_where_other p q f keep apart (x ∷ xs) =
      ground (arith, keep x, apart x, find-update_where_other p q f keep apart xs)
