-- ===== src/Tests/Codes.antt =====
-- The theorems on status codes, on the limiter and on the choice of a channel, applied to data.
use east_api.Prelude.{
  ℕ, ◌/◌, ◌≤◌, ◌<◌, ◌+◌, ◌≡◌, refl, String, true, false, some, List, [], ◌∷◌, arith, All,
}
use east_api.Prelude.Int.{pos}
use east_api.Prelude.Text.{codes}
use east_api.StatusCode.{
  StatusCodeRange, should_match, match_from, should_retry, default_retry, parse_ranges,
  print_ranges,
}
use east_api.StatusCode.Match.{IsCanonical, legacy_retry, should_retry-legacy_retry}
use east_api.StatusCode.Reads.{Reads, parse_ranges-Reads}
use east_api.StatusCode.Print.{parse_ranges-print_ranges}
use east_api.RateLimit.{request, init}
use east_api.RateLimit.Window.{in_stretch}
use east_api.RateLimit.Steps.{Explained}
use east_api.RateLimit.Trace.{Event, ask, sweep, InOrder, run, run-in_stretch, request-Explained}
use east_api.Channel.{
  Channel, init_channel_cache, get_random_satisfied_channel, choose_among, chosen,
}
use east_api.Channel.Pick.{values, values_of, choose_among-share}
use east_api.Channel.Served.Listed.{offers}
use east_api.Channel.Served.{Answers, get_random_satisfied_channel-Answers}
use east_api.Relay.{Request, RetryParam, relay}
use east_api.Relay.Ends.{EndsWithin, budget, relay-EndsWithin}

abbrev ranges : List StatusCodeRange
ranges = record { start = 401; stop = 403 } ∷ record { start = 500; stop = 500 } ∷ []

ranges-IsCanonical : IsCanonical ranges
ranges-IsCanonical =
    (omega arith, omega arith, omega arith, (omega arith, omega arith, omega arith, tt))

should_retry-legacy_retry_example : should_retry default_retry 418 ≡ legacy_retry 418
should_retry-legacy_retry_example = should_retry-legacy_retry 418

retries : should_retry default_retry 500 ≡ true
unfolding should_retry should_match match_from
retries = refl

parse_ranges-Reads_example :
    Reads (codes "500, 402-403,401") (parse_ranges (codes "500, 402-403,401"))
parse_ranges-Reads_example = parse_ranges-Reads (codes "500, 402-403,401")

parse_ranges-print_ranges_example : parse_ranges (print_ranges ranges) ≡ some ranges
parse_ranges-print_ranges_example = parse_ranges-print_ranges ranges ranges-IsCanonical

-- Two requests in 10 seconds for every key
abbrev two : String → ℕ
two key = 2

abbrev ten : String → ℕ
ten key = 10

abbrev events : List Event
events = ask "k" 100 ∷ ask "k" 103 ∷ ask "other" 104 ∷ ask "k" 105 ∷ sweep 1300 ∷ ask "k" 1301 ∷ []

events-InOrder : InOrder 0 events
events-InOrder =
    (omega arith, (omega arith, (omega arith, (omega arith, (omega arith, (omega arith, tt))))))

run-in_stretch_example : in_stretch 98 10 (run two ten "k" events (init 1200, [])).1 ≤ 2
run-in_stretch_example =
    run-in_stretch two ten "k" (omega arith) 1200 events (omega arith) events-InOrder 98

request-Explained_example :
    Explained 2 10 1302
      (run two ten "k" events (init 1200, [])).1
      (request "k" 2 10 1302 (run two ten "k" events (init 1200, [])).0).0
request-Explained_example =
    request-Explained two ten "k" (omega arith) 1200 1302 events (omega arith) events-InOrder
      (omega arith)

abbrev channel : ℕ → ℕ → Channel
channel id weight = record {
  id = id;
  enabled = true;
  groups = "default" ∷ [];
  models = "gpt-4" ∷ [];
  priority = pos 5;
  weight = weight;
}

abbrev backup : Channel
backup = record (channel 3 0) { priority = pos 1 }

abbrev channels : List Channel
channels = channel 1 30 ∷ channel 2 70 ∷ backup ∷ []

-- The random source that always answers half of its bound
abbrev half : ℕ → ℕ
half n = n / 2

half_below : (n : ℕ) → 1 ≤ n → half n < n
half_below n h = omega (arith, h)

abbrev weighted : List Channel
weighted = channel 1 30 ∷ channel 2 70 ∷ []

choose_among-share_example :
    (choose_among half weighted ≡ chosen (channel 2 70))
    × (values weighted (channel 1 30 ∷ []) + values_of weighted (channel 2 70)
        ≤ values weighted weighted)
choose_among-share_example =
    choose_among-share half (channel 1 30 ∷ []) [] (channel 2 70) (omega arith) (omega arith)

get_random_satisfied_channel-Answers_example :
    Answers
      (offers "default" "gpt-4")
      (All (λ c. offers "default" "gpt-4" c ≡ false) channels)
      (get_random_satisfied_channel half (init_channel_cache channels) "default" "gpt-4" 0)
get_random_satisfied_channel-Answers_example =
    get_random_satisfied_channel-Answers half channels "default" "gpt-4" 0 half_below
      (refl, (refl, (refl, tt)))

-- Every attempt fails with 500, and groups are chosen automatically.
abbrev asking : Request
asking = record {
  token_group = "auto";
  auto_groups = "default" ∷ "vip" ∷ [];
  model = "gpt-4";
  cross_group_retry = true;
  retry_times = 3;
  ranges = default_retry;
  cache = λ n. init_channel_cache channels;
  draw = λ n group. half;
  answer = λ n. some (record {
    code = 500;
    skips_by_affinity = false;
    is_channel_error = false;
    is_skip_retry = false;
    is_always_skip_code = false;
    names_channel = false;
  });
}

abbrev at_first : RetryParam
at_first = record { retry = 0; reset_next_try = false; group_index = 0; auto_group = "" }

relay-EndsWithin_example :
    EndsWithin (0 + budget asking at_first) (relay asking (channel 1 30) 20 0 at_first)
relay-EndsWithin_example = relay-EndsWithin asking (channel 1 30) 20 0 at_first (omega arith) refl
