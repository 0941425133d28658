-- ===== src/Lib.antt =====
-- The billing core of east-api, a gateway that relays requests to AI providers and charges for them.
--
-- A request is charged to the wallet of its user or to a subscription, and to the token that it came
-- with. A billing session reserves an amount before the request is relayed, settles it for the actual
-- cost after, or gives it back if the request fails. The request goes to a channel of the user's group
-- that is chosen by priority and weight, and after a failure to the next.
--
-- Files:
-- - Prelude and below: names of the library that are passed on, Boolean tests, signed integers,
--   tables as lists, texts as code points.
-- - Store, Store/Rows: the tables and the memory that the code works on, the rows of model/*.go, and
--   actions: functions from a state to a result and a state. DB.Transaction is `transaction`: on an
--   error the tables are put back. Store/Ensures, Store/Keeps and Store/Triples: the rules by which
--   invariants and postconditions of actions are proved; Store/Calm: those by which a call is shown to
--   return where no statement fails.
-- - Quota and below: IncreaseUserQuota, DecreaseUserQuota and DeltaUpdateUserQuota of model/user.go,
--   IncreaseTokenQuota and DecreaseTokenQuota of model/token.go, addNewRecord and batchUpdate of
--   model/utils.go. The effective quota of a key is what its row holds and what waits for the batch
--   updater.
-- - Calendar: what model/subscription.go uses of Go's time, in UTC, where the code takes the location
--   of the base.
-- - Subscription/Reset: calcPlanEndTime, calcNextResetTime and maybeResetUserSubscriptionWithPlanTx;
--   Subscription/Consume: PreConsumeUserSubscription, PostConsumeUserSubscriptionDelta,
--   RefundSubscriptionPreConsume and the queries beside them; Subscription/Due: ResetDueSubscriptions;
--   Subscription/Orders: CreateUserSubscriptionFromPlanTx, CompleteSubscriptionOrder and
--   ExpireSubscriptionOrder; Subscription/Lifecycle: ExpireDueSubscriptions,
--   AdminInvalidateUserSubscription, AdminDeleteUserSubscription and AdminBindSubscription, all of
--   model/subscription.go.
-- - Redemption: Redeem of model/redemption.go. Topup: Recharge, RechargeCreem, RechargeWaffo and
--   ManualCompleteTopUp of model/topup.go.
-- - Billing/Funding: the two sources of service/funding_source.go; Billing/Session: BillingSession of
--   service/billing_session.go with preConsume, Settle and Refund; Billing/Factory:
--   NewBillingSession, with NormalizeBillingPreference of common/str.go.
--   Billing/PostConsume: SettleBilling of service/billing.go with PostConsumeQuota of
--   service/quota.go; Billing/Tasks: RefundTaskQuota and RecalculateTaskQuota of service/task_billing.go.
-- - StatusCode: the ranges of HTTP status codes of setting/operation_setting/status_code_ranges.go, by
--   which controller/relay.go retries a request and disables a channel.
-- - RateLimit: InMemoryRateLimiter of common/rate-limit.go; RateLimit/Trace runs it over a list of
--   events.
-- - Channel: the cache of model/channel_cache.go and the choice of a channel for a request, with
--   FormatMatchingModelName of setting/ratio_setting/model_ratio.go.
-- - Channel/Keys: a channel of several keys: GetKeys, GetNextEnabledKey, handlerMultiKeyUpdate and
--   UpdateChannelStatus of model/channel.go; Channel/Keys/Rotation: polling over many calls.
-- - Relay: the attempts of a request, which are the loop of Relay with getChannel and shouldRetry of
--   controller/relay.go and CacheGetRandomSatisfiedChannel of service/channel_select.go.
-- - TaskPolling: what sweepTimedOutTasks, updateVideoSingleTask and settleTaskBillingOnComplete of
--   service/task_polling.go and tryRealtimeFetch of relay/relay_task.go make of a task;
--   TaskPolling/Rows: the table of model/task.go with UpdateWithStatus; TaskPolling/SunoPoll: a turn
--   of updateSunoTasks; TaskPolling/Steps: any number of pollers interleaved, as a step relation, with
--   both branches of DispatchPlatformUpdate. Which tasks are Suno's is a parameter there.
-- - UpstreamModels: the comparison of a channel's models with those of its provider and the changes
--   that are selected, controller/channel_upstream_update.go.
-- - Override: what a channel's settings override in a request, relay/common/override.go: the
--   operations on headers, the conditions and the pruning of objects.
-- - Tests: test data and the theorems applied to it; the modules below it: more of them.
--
-- Modelling. Identifiers and times are naturals, amounts unbounded integers: the 64-bit range of Go's
-- int is not modelled. Every SQL statement, and the commit of a transaction, may fail, as a schedule in
-- the state says, and theorems speak of every schedule unless they say that no statement fails.
-- Redis is off; the caches of plans are transparent. The mutex of a session makes each of its methods
-- one step; goroutines are run at once; transactions run one after another. Log lines, the pauses
-- between attempts, and the texts of errors are left out: an error is a constructor.
-- The catch-up loop of a reset runs on fuel: one more than the present time is enough, because every
-- round moves the next reset forward and the loop ends past the present time. The month of a day is
-- found on fuel too: no month is shorter than 28 days.
-- The loop of attempts runs on fuel: one more than the budget, which counts the attempts that the groups
-- left allow, is enough.
-- Parameters: what floats and decimals make of an amount of money (Topup.Rates), the random source
-- of the choice of a channel or a key, which answers below its bound as math/rand does, the JSON
-- parsers and the match of regular expressions (UpstreamModels, Channel/Keys), Go's operations on the
-- case of texts (Override.Headers.Texts), gjson and the rewriting of a path with negative indexes
-- (Override.Conditions.Reader), and what an adaptor
-- or the ratio settings make of a finished task (TaskPolling.Pricing). What a provider answers to a
-- poll is an argument: the poll is modelled from the parsed answer on.
--
-- Not modelled: the provider adaptors, the HTTP layer, prices and ratios (floating point), Redis, the
-- retry loop of tasks, the polling of Midjourney tasks, and the
-- other operations on the body of a request.

pub mod Prelude
pub mod Store
pub mod Quota
pub mod Calendar
pub mod Subscription
pub mod Billing
pub mod Redemption
pub mod Topup
pub mod StatusCode
pub mod RateLimit
pub mod Channel
pub mod Relay
pub mod TaskPolling
pub mod UpstreamModels
pub mod Override
pub mod Tests
