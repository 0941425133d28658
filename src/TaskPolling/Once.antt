-- ===== src/TaskPolling/Once.antt =====
-- How often the pollers of TaskPolling/Steps bill a task.
use east_api.Prelude.{
  ℕ, String, ◌+◌, ◌≤◌, ◌≡◌, refl, sym, ap, ◌∙◌, subst, Bool, true, false, false≢true, Option, none,
  some, List, [], ◌∷◌, ◌++◌, ◌==◌, ==_iff, Bool-cases, inl, inr, if_both, if_false, All, arith,
}
use east_api.Store.{World}
use east_api.TaskPolling.Rows.{Row, Table, is_done}
use east_api.TaskPolling.{
  TaskInfo, ErrorBody, Due, Write, write_back, sweep_task, update_video_single_task,
}
use east_api.TaskPolling.SunoPoll.{SunoData, task_needs_update, fails_task, update_suno_task}
use east_api.TaskPolling.Batch.{IsUnended, sweep_batch-All, get_all_unfinished_sync_tasks-All}
use east_api.TaskPolling.Left.{
  left, row_left, there, write_back-left, fail_by_id-left, put-there, write_back-there,
  fail_by_id-there, sweep_task-Allowed, update_video_single_task-Allowed,
}
use east_api.TaskPolling.Steps.{
  Service, Poller, System, counts, count_billed, count_owed, Move, load_late, load_unfinished, pass,
  sweep, poll, poll_suno, give_up, pays, Step, moves, starts, inserts, Reach, start, next,
}

-- What is billed, owed and still to come of a task, around one poller
abbrev weight : ℕ → World × Table × List Due → Poller → ℕ
weight k m p = counts k p.due + count_billed k m.2 + left k m.1

abbrev Fresh : Poller → Type 0
Fresh p = All IsUnended p.batch

-- One move adds nothing to the weight of a task and removes no row.
record Fair (k : ℕ) (m m' : World × Table × List Due) (p p' : Poller) : Type 0 where
  no_more : weight k m' p' ≤ weight k m p
  closes : left k m'.1 ≤ left k m.1
  stays : there (m.1 k) ≡ true → there (m'.1 k) ≡ true

sweep_left :
    (r : Row) (fails : Bool) (k now : ℕ) (reason legacy_reason : String) (rows : Table)
    → IsUnended r
    → (let after = write_back fails (sweep_task now reason legacy_reason r) rows in
        counts k after.1 + left k after.0)
      ≤ left k rows
sweep_left r fails k now reason legacy_reason rows u =
    write_back-left r fails k (sweep_task now reason legacy_reason r) rows u
      (sweep_task-Allowed now reason legacy_reason r)

poll_left :
    (server : String) (now : ℕ) (info : TaskInfo) (error : ErrorBody) (body : String) (r : Row)
    (wr : Write)
    → update_video_single_task server now info error body r ≡ some wr
    → (fails : Bool) (k : ℕ) (rows : Table) → IsUnended r
    → counts k (write_back fails wr rows).1 + left k (write_back fails wr rows).0 ≤ left k rows
poll_left server now info error body r wr e fails k rows u =
    write_back-left r fails k wr rows u
      (update_video_single_task-Allowed server now info error body r wr u e)

-- A move leaves a poller with tasks that had not ended when they were read.
Move-Fresh :
    {service : Service} {m : World × Table × List Due} {p : Poller} {m' : World × Table × List Due}
    {p' : Poller}
    → Move service m p m' p'
    → Fresh p
    → Fresh p'
Move-Fresh (load_late w rows ds minutes now n) f = sweep_batch-All minutes now n rows
Move-Fresh (load_unfinished w rows ds limit n) f = get_all_unfinished_sync_tasks-All limit n rows
Move-Fresh (pass w rows ds r rest) f = f.1
Move-Fresh (sweep w rows ds r rest now reason legacy_reason fails) f = f.1
Move-Fresh (poll w rows ds r rest server now info error body fails wr v e) f = f.1
Move-Fresh (poll_suno w rows ds r rest new fails is) f = f.1
Move-Fresh (give_up w rows ds r rest reason) f = f.1
Move-Fresh (pays w rows ds p) f = f

-- A turn of updateSunoTasks touches no task but its own.
suno_other :
    (marshal : String → List ℕ) (fails : Bool) (new : SunoData) (r : Row) (k : ℕ) (rows : Table)
    → (r.id == k) ≡ false
    → (counts k (update_suno_task marshal fails new r rows).1 ≡ 0)
      × ((update_suno_task marshal fails new r rows).0 k ≡ rows k)
unfolding update_suno_task
suno_other marshal fails new r k rows h =
    if_both (λ (x : Table × Due). (counts k x.1 ≡ 0) × (x.0 k ≡ rows k))
      (task_needs_update marshal r new)
      (
        if_both (λ d. counts k d ≡ 0) (fails_task marshal new r) (if_false (r.id == k) 1 0 h) refl,
        if_both (λ (t : Table). t k ≡ rows k) fails refl (ground (arith, h)),
      )
      (refl, refl)

other :
    (service : Service) (k j : ℕ)
    → service.is_suno j ≡ true
    → service.is_suno k ≡ false
    → (j == k) ≡ false
other service k j is n = elim (Bool-cases (j == k)) [
  | inr apart ↦ apart
  | inl same ↦
      absurd (false≢true (sym n ∙ subst (λ i. service.is_suno i ≡ true) ((==_iff j k).0 same) is))
]

Move-Fair :
    {service : Service} {m : World × Table × List Due} {p : Poller} {m' : World × Table × List Due}
    {p' : Poller} (k : ℕ)
    → Move service m p m' p'
    → service.is_suno k ≡ false
    → Fresh p
    → Fair k m m' p p'
Move-Fair k (load_late w rows ds minutes now size) n f = record {
  no_more = omega arith;
  closes = omega arith;
  stays = λ h. h;
}
Move-Fair k (load_unfinished w rows ds limit size) n f = record {
  no_more = omega arith;
  closes = omega arith;
  stays = λ h. h;
}
Move-Fair k (pass w rows ds r rest) n f = record {
  no_more = omega arith;
  closes = omega arith;
  stays = λ h. h;
}
Move-Fair k (sweep w rows ds r rest now reason legacy_reason fails) n f = record {
  no_more = omega (arith, sweep_left r fails k now reason legacy_reason rows f.0);
  closes = omega (arith, sweep_left r fails k now reason legacy_reason rows f.0);
  stays = write_back-there fails (sweep_task now reason legacy_reason r) rows k;
}
Move-Fair k (poll w rows ds r rest server now info error body fails wr v e) n f = record {
  no_more = omega (arith, poll_left server now info error body r wr e fails k rows f.0);
  closes = omega (arith, poll_left server now info error body r wr e fails k rows f.0);
  stays = write_back-there fails wr rows k;
}
Move-Fair {service} k (poll_suno w rows ds r rest new fails is) n f =
    let turn = suno_other service.marshal fails new r k rows (other service k r.id is n) in
    record {
      no_more = omega (arith, turn.0, ap row_left turn.1);
      closes = omega (arith, ap row_left turn.1);
      stays = λ h. ap there turn.1 ∙ h;
    }
Move-Fair k (give_up w rows ds r rest reason) n f = record {
  no_more = omega (arith, fail_by_id-left r.id k reason rows);
  closes = fail_by_id-left r.id k reason rows;
  stays = fail_by_id-there r.id k reason rows;
}
Move-Fair k (pays w rows ds p) n f = record {
  no_more = omega arith;
  closes = omega arith;
  stays = λ h. h;
}

count_owed-append :
    (k : ℕ) (ps qs : List Poller) → count_owed k (ps ++ qs) ≡ count_owed k ps + count_owed k qs
count_owed-append k [] qs = omega arith
count_owed-append k (p ∷ ps) qs = omega (arith, count_owed-append k ps qs)

All-middle : (ps : List Poller) (p : Poller) (qs : List Poller) → All Fresh (ps ++ p ∷ qs) → Fresh p
All-middle [] p qs h = h.0
All-middle (q ∷ ps) p qs h = All-middle ps p qs h.1

All-replace :
    (ps : List Poller) (p p' : Poller) (qs : List Poller)
    → Fresh p'
    → All Fresh (ps ++ p ∷ qs)
    → All Fresh (ps ++ p' ∷ qs)
All-replace [] p p' qs f h = (f, h.1)
All-replace (q ∷ ps) p p' qs f h = (h.0, All-replace ps p p' qs f h.1)

-- How often the task is billed already or will be by what the pollers owe
abbrev pub settled_or_owed : ℕ → System → ℕ
settled_or_owed k s = count_billed k s.billed + count_owed k s.pollers

abbrev pub AllFresh : System → Type 0
AllFresh s = All Fresh s.pollers

left-below : (o : Option Row) → row_left o ≤ 1
left-below none = omega arith
left-below (some r) = ground arith

module _ {service : Service} where
  pub Step-Fresh : {s t : System} → Step service s t → AllFresh s → AllFresh t
  Step-Fresh (moves s before after p p' w' rows' ds' e mv) f =
      let g : All Fresh (before ++ p ∷ after) = subst (All Fresh) e f in
      All-replace before p p' after (Move-Fresh mv (All-middle before p after g)) g
  Step-Fresh (starts s) f = (tt, f)
  Step-Fresh (inserts s t e z) f = f

  -- The weight of a task that is there never grows.
  Step-left :
      {s t : System} (k : ℕ)
      → service.is_suno k ≡ false
      → Step service s t
      → AllFresh s
      → there (s.rows k) ≡ true
      → (settled_or_owed k t + left k t.rows ≤ settled_or_owed k s + left k s.rows)
        × (left k t.rows ≤ left k s.rows)
        × (there (t.rows k) ≡ true)
  Step-left k n (moves s before after p p' w' rows' ds' e mv) f h =
      let fair = Move-Fair k mv n (All-middle before p after (subst (All Fresh) e f)) in
      (
        rw e (
            omega (
              arith,
              fair.no_more,
              count_owed-append k before (p ∷ after),
              count_owed-append k before (p' ∷ after),
            )),
        fair.closes,
        fair.stays h,
      )
  Step-left k n (starts s) f h = (omega arith, omega arith, h)
  Step-left k n (inserts s t e z) f h =
      (ground (arith, e, h), ground (arith, e, h), put-there t.id k t s.rows h)

  Step-most :
      {s t : System} (k : ℕ)
      → service.is_suno k ≡ false
      → Step service s t
      → AllFresh s
      → settled_or_owed k s + left k s.rows ≤ 1
      → settled_or_owed k t + left k t.rows ≤ 1
  Step-most k n (moves s before after p p' w' rows' ds' e mv) f h =
      let fair = Move-Fair k mv n (All-middle before p after (subst (All Fresh) e f)) in
      let h' = subst (λ ps. count_billed k s.billed + count_owed k ps + left k s.rows ≤ 1) e h in
      omega (
        arith,
        h',
        fair.no_more,
        count_owed-append k before (p ∷ after),
        count_owed-append k before (p' ∷ after),
      )
  Step-most k n (starts s) f h = omega arith
  Step-most k n (inserts s t e z) f h = ground (arith, z, h)

  pub Reach-Fresh : {w : World} {rows : Table} {s : System} → Reach service w rows s → AllFresh s
  Reach-Fresh start = tt
  Reach-Fresh (next r st) = Step-Fresh st (Reach-Fresh r)

  -- However the pollers interleave, those of Suno tasks among them, and whatever statements fail: a
  -- task that is not Suno's is billed at most once, the bills that are owed included, and is not
  -- billed while it has not ended.
  pub Reach-once :
      {w : World} {rows : Table} {s : System}
      → Reach service w rows s
      → (k : ℕ) → service.is_suno k ≡ false
      → settled_or_owed k s + left k s.rows ≤ 1
  Reach-once {rows} start k n = omega (arith, left-below (rows k))
  Reach-once (next r st) k n = Step-most k n st (Reach-Fresh r) (Reach-once r k n)

-- A task of the table that has ended
abbrev pub has_ended : Option Row → Bool
has_ended none = false
has_ended (some r) = is_done r.status

ended-left : (o : Option Row) → has_ended o ≡ true → (row_left o ≡ 0) × (there o ≡ true)
ended-left none h = absurd (false≢true h)
ended-left (some r) h = (rw h refl, refl)

left-ended : (o : Option Row) → row_left o ≡ 0 → there o ≡ true → has_ended o ≡ true
left-ended none h e = absurd (false≢true e)
left-ended (some r) h e = ground (arith, h)

-- From a state whose pollers hold tasks that had not ended when they were read
pub Step-ended_of_Fresh :
    {service : Service} {s t : System}
    → AllFresh s
    → Step service s t
    → (k : ℕ) → service.is_suno k ≡ false
    → has_ended (s.rows k) ≡ true
    → (has_ended (t.rows k) ≡ true) × (settled_or_owed k t ≤ settled_or_owed k s)
Step-ended_of_Fresh {s} {t} f st k n h =
    let was = ended-left (s.rows k) h in
    let after = Step-left k n st f was.1 in
    (left-ended (t.rows k) (omega (arith, was.0, after.1)) after.2, omega (arith, was.0, after.0))

-- A step of the pollers leaves a task ended that is not Suno's and has ended, and bills it no more
-- often than was owed already: a task that others ended without its bill is never billed.
pub Step-ended :
    {service : Service} {w : World} {rows : Table} {s t : System}
    → Reach service w rows s
    → Step service s t
    → (k : ℕ) → service.is_suno k ≡ false
    → has_ended (s.rows k) ≡ true
    → (has_ended (t.rows k) ≡ true) × (settled_or_owed k t ≤ settled_or_owed k s)
Step-ended r st k n h = Step-ended_of_Fresh (Reach-Fresh r) st k n h
