-- ===== src/Channel.antt =====
-- The cache of the channels and the choice of one for a request, model/channel_cache.go:
-- InitChannelCache, GetRandomSatisfiedChannel, CacheGetChannel and CacheUpdateChannelStatus, where
-- the memory cache is on. The lock makes each call one step.
pub mod Pick
pub mod Rank
pub mod Served
pub mod Keys
use text.Mathlib.Text.{starts_with}
use east_api.Prelude.{
  ℕ, zero, suc, ◌+◌, ◌-◌, ◌*◌, ◌/◌, String, Bool, true, false, ◌&&◌, ◌||◌, Option, none, some, List,
  [], ◌∷◌, ltb, leb, ◌==◌, str_eq, length, if◌then◌else◌,
}
use east_api.Prelude.Int.{ℤ, ltb_ℤ, leb_ℤ, eqb_ℤ}
use east_api.Prelude.Tables.{find, select, update_where}

-- The columns that the choice reads: `groups` and `models` are the columns of that name, split at
-- their commas; `priority` and `weight` are what GetPriority and GetWeight answer.
pub record Channel : Type 0 where
  pub id : ℕ
  pub enabled : Bool
  pub groups : List String
  pub models : List String
  pub priority : ℤ
  pub weight : ℕ

-- `group2model2channels` and `channelsIDM`, the one map as a function and the other as a table
pub record Cache : Type 0 where
  pub lists : String → String → List ℕ
  pub all : List Channel

abbrev pub channel_has_id : ℕ → Channel → Bool
channel_has_id id c = c.id == id

abbrev pub lookup : Cache → ℕ → Option Channel
lookup cache id = find (channel_has_id id) cache.all

-- `strings.Contains`
unfoldable pub contains : String → String → Bool
contains String.[] t = starts_with "" t
contains (String.◌∷◌ c s) t = starts_with (String.◌∷◌ c s) t || contains s t

-- `handleThinkingBudgetModel`
unfoldable pub handle_thinking_budget_model : String → String → String → String
unfolding contains
handle_thinking_budget_model name prefix wildcard =
    if starts_with name prefix && contains name "-thinking-" then wildcard else name

abbrev thinking : String → String
thinking name =
    if starts_with name "gemini-2.5-flash-lite"
    then handle_thinking_budget_model name "gemini-2.5-flash-lite"
        "gemini-2.5-flash-lite-thinking-*"
    else if starts_with name "gemini-2.5-flash"
    then handle_thinking_budget_model name "gemini-2.5-flash" "gemini-2.5-flash-thinking-*"
    else if starts_with name "gemini-2.5-pro"
    then handle_thinking_budget_model name "gemini-2.5-pro" "gemini-2.5-pro-thinking-*"
    else name

abbrev gizmo : String → String
gizmo name = if starts_with name "gpt-4-gizmo" then "gpt-4-gizmo-*" else name

abbrev gizmo_4o : String → String
gizmo_4o name = if starts_with name "gpt-4o-gizmo" then "gpt-4o-gizmo-*" else name

-- `FormatMatchingModelName`
unfoldable pub format_matching_model_name : String → String
unfolding handle_thinking_budget_model
format_matching_model_name name = gizmo_4o (gizmo (thinking name))

-- One id for every time that the name stands in the column
times : String → ℕ → List String → List ℕ → List ℕ
times name id [] rest = rest
times name id (n ∷ names) rest =
    let later = times name id names rest in if str_eq n name then id ∷ later else later

-- For every time that the group stands in the column, the models' ids
in_group : String → String → Channel → List String → List ℕ → List ℕ
unfolding times
in_group group model c [] rest = rest
in_group group model c (g ∷ gs) rest =
    let later = in_group group model c gs rest in
    if str_eq g group then times model c.id c.models later else later

-- The list of a group and a model before it is sorted
unfoldable pub gather : String → String → List Channel → List ℕ
unfolding in_group
gather group model [] = []
gather group model (c ∷ cs) =
    let rest = gather group model cs in
    if c.enabled then in_group group model c c.groups rest else rest

priority_of : List Channel → ℕ → ℤ
priority_of all id = elim (find (channel_has_id id) all) [ none ↦ ℤ.pos 0 | some c ↦ c.priority ]

insert_by_priority : List Channel → ℕ → List ℕ → List ℕ
unfolding priority_of
insert_by_priority all id [] = id ∷ []
insert_by_priority all id (j ∷ js) =
    let rest = insert_by_priority all id js in
    if ltb_ℤ (priority_of all id) (priority_of all j) then j ∷ rest else id ∷ j ∷ js

-- `sort.Slice` by priority, the highest first
unfoldable pub sort_by_priority : List Channel → List ℕ → List ℕ
unfolding insert_by_priority
sort_by_priority all [] = []
sort_by_priority all (id ∷ ids) = insert_by_priority all id (sort_by_priority all ids)

-- `InitChannelCache`, where every group of a channel has an ability
unfoldable pub init_channel_cache : List Channel → Cache
unfolding gather sort_by_priority
init_channel_cache channels = record {
  lists = λ group model. sort_by_priority channels (gather group model channels);
  all = channels;
}

-- What GetRandomSatisfiedChannel answers: a channel, none, or an error
pub data Selection : Type 0 where
  chosen : Channel → Selection
  nothing inconsistent exhausted : Selection

-- The channels of the ids, unless one is missing
resolve : Cache → List ℕ → Option (List Channel)
resolve cache [] = some []
resolve cache (id ∷ ids) =
    let rest = resolve cache ids in
    elim (lookup cache id) [
      | none ↦ none
      | some c ↦ elim rest [ none ↦ none | some cs ↦ some (c ∷ cs) ]
    ]

-- The set of priorities, sorted from the highest to the lowest
insert_priority : ℤ → List ℤ → List ℤ
insert_priority p [] = p ∷ []
insert_priority p (q ∷ qs) =
    let rest = insert_priority p qs in
    if eqb_ℤ p q then q ∷ qs else if ltb_ℤ q p then p ∷ q ∷ qs else q ∷ rest

unfoldable pub unique_priorities : List Channel → List ℤ
unfolding insert_priority
unique_priorities [] = []
unique_priorities (c ∷ cs) = insert_priority c.priority (unique_priorities cs)

-- The element at an index, the last one if the index is past the end
unfoldable pub at_most : ℕ → ℤ → List ℤ → ℤ
at_most n p [] = p
at_most zero p (q ∷ qs) = p
at_most (suc n) p (q ∷ qs) = at_most n q qs

abbrev pub target_channels : ℤ → List Channel → List Channel
target_channels p cs = select (λ c. eqb_ℤ c.priority p) cs

abbrev pub sum_weight : List Channel → ℕ
sum_weight [] = 0
sum_weight (c ∷ cs) = c.weight + sum_weight cs

abbrev pub smoothing_factor : List Channel → ℕ
smoothing_factor cs =
    if sum_weight cs == 0 then 1 else if ltb (sum_weight cs / length cs) 10 then 100 else 1

abbrev pub smoothing_adjustment : List Channel → ℕ
smoothing_adjustment cs = if sum_weight cs == 0 then 100 else 0

abbrev pub total_weight : List Channel → ℕ
total_weight cs =
    if sum_weight cs == 0 then length cs * 100 else sum_weight cs * smoothing_factor cs

-- The last loop: `randomWeight` is the value less the weights before.
unfoldable pub pick : ℕ → ℕ → ℕ → List Channel → Selection
pick factor adjustment r [] = exhausted
pick factor adjustment r (c ∷ cs) =
    let w = c.weight * factor + adjustment in
    let rest = pick factor adjustment (r - w) cs in if ltb r w then chosen c else rest

-- `rand.Intn(totalWeight)` answers `draw totalWeight`.
unfoldable pub choose_among : (ℕ → ℕ) → List Channel → Selection
unfolding pick
choose_among draw [] = exhausted
choose_among draw (c ∷ cs) =
    let targets = c ∷ cs in
    pick (smoothing_factor targets) (smoothing_adjustment targets) (draw (total_weight targets))
      targets

unfoldable pub choose_rank : (ℕ → ℕ) → ℕ → List Channel → Selection
unfolding choose_among unique_priorities at_most
choose_rank draw retry cs = elim (unique_priorities cs) [
  | [] ↦ exhausted
  | p ∷ ps ↦ choose_among draw (target_channels (at_most retry p ps) cs)
]

choose_from : (ℕ → ℕ) → ℕ → Cache → List ℕ → Selection
unfolding resolve choose_rank
choose_from draw retry cache [] = nothing
choose_from draw retry cache (id ∷ []) = elim (lookup cache id) [
  | none ↦ inconsistent
  | some c ↦ chosen c
]
choose_from draw retry cache (id ∷ j ∷ ids) = elim (resolve cache (id ∷ j ∷ ids)) [
  | none ↦ inconsistent
  | some cs ↦ choose_rank draw retry cs
]

-- The list of the exact name, or that of the normalized name
abbrev pub candidates : Cache → String → String → List ℕ
candidates cache group model = elim (cache.lists group model) [
  | [] ↦ cache.lists group (format_matching_model_name model)
  | id ∷ ids ↦ id ∷ ids
]

-- `GetRandomSatisfiedChannel(group, model, retry)`
unfoldable pub get_random_satisfied_channel : (ℕ → ℕ) → Cache → String → String → ℕ → Selection
unfolding choose_from
get_random_satisfied_channel draw cache group model retry =
    choose_from draw retry cache (candidates cache group model)

-- The loop that takes the first occurrence of the id out of a list
remove_first : ℕ → List ℕ → List ℕ
remove_first id [] = []
remove_first id (j ∷ js) = let rest = remove_first id js in if j == id then js else j ∷ rest

-- `CacheUpdateChannelStatus`
unfoldable pub cache_update_channel_status : ℕ → Bool → Cache → Cache
unfolding remove_first
cache_update_channel_status id enabled cache = record {
  lists = λ group model.
      if enabled then cache.lists group model else remove_first id (cache.lists group model);
  all = update_where (channel_has_id id) (λ c. record c { enabled = enabled }) cache.all;
}
