-- ===== src/TaskPolling/Batch.antt =====
-- What the queries of the pollers read has not ended.
use east_api.Prelude.{
  ℕ, zero, suc, ◌≡◌, Bool, true, false, Option, none, some, List, [], ◌∷◌, ◌++◌, All, if_both,
  if_cases, if◌then◌else◌, ltb, arith,
}
use east_api.TaskPolling.Rows.{
  Row, Table, is_done, scan, is_unfinished, is_late, take, insert_by_submit, sort_by_submit,
  get_timed_out_unfinished_tasks, get_all_unfinished_sync_tasks, sweep_batch,
}

abbrev pub IsUnended : Row → Type 0
IsUnended r = is_done r.status ≡ false

All-append : (xs ys : List Row) → All IsUnended xs → All IsUnended ys → All IsUnended (xs ++ ys)
All-append [] ys h k = k
All-append (x ∷ xs) ys h k = (h.0, All-append xs ys h.1 k)

scan-All :
    (p : Row → Bool)
    → ((r : Row) → p r ≡ true → IsUnended r)
    → (n : ℕ) (rows : Table) → All IsUnended (scan p n rows)
unfolding scan
scan-All p good zero rows = tt
scan-All p good (suc n) rows = All-append (scan p n rows) _ (scan-All p good n rows) (go (rows n))
  where
    go :
        (o : Option Row)
        → All IsUnended (elim o [ none ↦ [] | some r ↦ if p r then r ∷ [] else [] ])
    go none = tt
    go (some r) = if_cases (All IsUnended) (p r) (λ e. (good r e, tt)) (λ e. tt)

take-All : (n : ℕ) (xs : List Row) → All IsUnended xs → All IsUnended (take n xs)
unfolding take
take-All zero xs h = tt
take-All (suc n) [] h = tt
take-All (suc n) (x ∷ xs) h = (h.0, take-All n xs h.1)

insert_by_submit-All :
    (r : Row) (xs : List Row)
    → IsUnended r
    → All IsUnended xs
    → All IsUnended (insert_by_submit r xs)
unfolding insert_by_submit
insert_by_submit-All r [] u h = (u, tt)
insert_by_submit-All r (x ∷ xs) u h =
    if_both (All IsUnended) (ltb x.submit_time r.submit_time) (h.0, insert_by_submit-All r xs u h.1)
      (u, h)

sort_by_submit-All : (xs : List Row) → All IsUnended xs → All IsUnended (sort_by_submit xs)
unfolding sort_by_submit
sort_by_submit-All [] h = tt
sort_by_submit-All (x ∷ xs) h =
    insert_by_submit-All x (sort_by_submit xs) h.0 (sort_by_submit-All xs h.1)

pub get_all_unfinished_sync_tasks-All :
    (limit n : ℕ) (rows : Table) → All IsUnended (get_all_unfinished_sync_tasks limit n rows)
unfolding get_all_unfinished_sync_tasks
get_all_unfinished_sync_tasks-All limit n rows =
    take-All limit (scan is_unfinished n rows)
      (scan-All is_unfinished (λ r e. ground (arith, e)) n rows)

pub sweep_batch-All :
    (minutes now n : ℕ) (rows : Table) → All IsUnended (sweep_batch minutes now n rows)
unfolding sweep_batch get_timed_out_unfinished_tasks
sweep_batch-All zero now n rows = tt
sweep_batch-All (suc m) now n rows =
    take-All 100 _ (sort_by_submit-All _ (scan-All (is_late _) (λ r e. ground (arith, e)) n rows))
