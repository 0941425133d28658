-- ===== src/Redemption/Once.antt =====
-- A code is redeemed once.
use mathlib.Core.Option
use east_api.Prelude.{
  ℕ, ◌≡◌, refl, ap, sym, subst, ◌∙◌, String, Bool, true, false, not, ◌&&◌, Option, none, some,
  false≢true, ltb, ◌==◌,
}
use east_api.Prelude.Int.{ℤ}
use east_api.Prelude.Tables.{find, find-update_where}
use east_api.Prelude.Text.{is_empty_text}
use east_api.Store.{World, Error, Result, ok, err, gets, or_raise, statement, write, transaction}
use east_api.Store.Triples.{
  After, Triple, Anything, Triple-pure, Triple-raise, Triple-gets, Triple-get, Triple-or_some,
  Triple-statement, Triple-write, Triple-guard, Triple-bind, Triple-Anything, Triple-on_error,
  transaction-After,
}
use east_api.Store.Rows.{Redemption}
use east_api.Redemption.{code_has_key, is_enabled, redeemed, credit, redeem_body, redeem}

abbrev pub used_row : Option Redemption → Bool
used_row none = false
used_row (some r) = not (is_enabled r.status)

-- Whether the code is there and used up.
abbrev pub used_up : String → World → Bool
used_up key w = used_row (find (code_has_key key) w.db.redemptions)

credit-Triple :
    (key : String) (user_id now : ℕ) (r : Redemption)
    → Triple
        (λ w. find (code_has_key key) w.db.redemptions ≡ some r)
        (λ _ w. used_up key w ≡ true)
        Anything
        (credit key user_id now r)
unfolding credit
credit-Triple key user_id now r =
    Triple-bind (write _) _
      (Triple-write {Q = λ w. find (code_has_key key) w.db.redemptions ≡ some r} _ (λ _ _. tt)
        (λ w h. h))
      λ _.
        Triple-bind (write _) _
          (Triple-write {Q = λ w. used_up key w ≡ true} _ (λ _ _. tt)
            λ w h. ap used_row (
              find-update_where (code_has_key key) (redeemed user_id now) (λ r'. refl)
                w.db.redemptions
              ∙ ap (Option.map (redeemed user_id now)) h))
          λ _. Triple-pure r.quota λ w h. h

-- The body up to the credit: what is claimed of the credit holds of the body, and where the code is
-- used up there is no credit.
body-Triple :
    (key : String) (user_id : ℕ)
    → Triple Anything (λ _ w. used_up key w ≡ true) Anything (redeem_body key user_id)
unfolding redeem_body
body-Triple key user_id =
    Triple-on_error statement _ _ (Triple-Anything statement) (λ _. Triple-raise _ λ _ _. tt)
      λ _.
        Triple-bind (gets (λ w. find (code_has_key key) w.db.redemptions)) _ (Triple-get _) λ found.
          Triple-bind (or_raise found Error.code_invalid) _ (Triple-or_some found _ (λ _ _. tt))
            λ r.
              Triple-guard (not (is_enabled r.status)) Error.code_used _ (λ _ _. tt)
                λ _.
                  Triple-bind {A = ℕ} (gets (λ w. w.now)) _ (Triple-gets (λ _ _. tt) (λ w. w.now))
                    λ now.
                      Triple-guard (not (r.expired_time == 0) && ltb r.expired_time now)
                        Error.code_expired _ (λ _ _. tt)
                        λ _. record {
                          at = λ w h. (credit-Triple key user_id now r).at w (h.0.1 ∙ h.1);
                        }

body_again :
    (key : String) (user_id : ℕ)
    → Triple (λ w. used_up key w ≡ true) (λ _ _. ⊥) Anything (redeem_body key user_id)
unfolding redeem_body
body_again key user_id =
    Triple-on_error {G = λ _ w. used_up key w ≡ true} statement _ _
      (Triple-statement (λ _ _. tt) (λ w h. h)) (λ _. Triple-raise _ λ _ _. tt)
      λ _.
        Triple-bind (gets (λ w. find (code_has_key key) w.db.redemptions)) _ (Triple-get _) λ found.
          Triple-bind (or_raise found Error.code_invalid) _ (Triple-or_some found _ (λ _ _. tt))
            λ r.
              Triple-guard (not (is_enabled r.status)) Error.code_used _ (λ _ _. tt)
                λ open'. record {
                  at = λ w h.
                      absurd (false≢true (sym open' ∙ (sym (ap used_row (h.0.1 ∙ h.1)) ∙ h.0.0)));
                }

redeem-After :
    (key : String) (user_id : ℕ) (w : World) (G : ℤ → World → Type 0)
    → After G (λ w'. w'.db ≡ w.db) (transaction (redeem_body key user_id) w)
    → After G (λ w'. w'.db ≡ w.db) (redeem key user_id w)
unfolding redeem
redeem-After key user_id w G h =
    (Triple-guard {P = λ w'. w' ≡ w} (is_empty_text key) Error.code_missing _
        (λ w' e. ap (λ (v : World). v.db) e)
        λ _.
          Triple-guard {P = λ w'. w' ≡ w} (user_id == 0) Error.invalid_user _
            (λ w' e. ap (λ (v : World). v.db) e)
            λ _.
              Triple-on_error {P = λ w'. w' ≡ w} {G = G} (transaction (redeem_body key user_id)) _ _
                (record {
                  at = λ w' e.
                      subst
                        (λ v.
                          After G (λ w''. w''.db ≡ w.db) (transaction (redeem_body key user_id) v))
                        (sym e) h;
                })
                (λ _. Triple-raise Error.redeem_failed λ w' e. e) λ q. Triple-pure q λ w' g. g).at
      w refl

-- When Redeem returns, every later call for the same code fails, by whichever user, and changes no
-- table. When it fails, at whatever statement, it has changed no table: neither the user has the
-- quota nor is the code used.
pub redeem-once :
    (key : String) (user_id other : ℕ) (w : World)
    → After
        (λ _ w'. After (λ _ _. ⊥) (λ w''. w''.db ≡ w'.db) (redeem key other w'))
        (λ w'. w'.db ≡ w.db)
        (redeem key user_id w)
redeem-once key user_id other w =
    redeem-After key user_id w
      (λ _ w'. After (λ _ _. ⊥) (λ w''. w''.db ≡ w'.db) (redeem key other w'))
      (spent_up (transaction (redeem_body key user_id) w)
        (transaction-After (redeem_body key user_id) (body-Triple key user_id) (λ a v q. q) w tt))
  where
    spent_up :
        (x : Result ℤ × World)
        → After (λ _ w'. used_up key w' ≡ true) (λ w'. w'.db ≡ w.db) x
        → After
            (λ _ w'. After (λ _ _. ⊥) (λ w''. w''.db ≡ w'.db) (redeem key other w'))
            (λ w'. w'.db ≡ w.db)
            x
    spent_up (ok q, w') u =
        redeem-After key other w' (λ _ _. ⊥)
          (transaction-After (redeem_body key other) (body_again key other) (λ a v q'. q') w' u)
    spent_up (err e, w') same = same
