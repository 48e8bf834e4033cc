-- ===== src/Lib.antt =====
-- Refluo: the off-chain half of a treasury vault on Stellar, in TypeScript.
--
-- The keeper (keeper/src) runs loops that each read the chain, decide, and submit at most a few
-- calls. The utilization monitor raises the vault's risk state, the swap sentinel tops up its XLM,
-- the forecaster sizes its hot balance (Tier 0) from the burn rate and recalls funds when that is
-- low, a webhook pauses the vault when a quorum of oracle nodes and a second source disagree, and
-- the alert dispatcher reports what has happened. The reporter sums up the metrics log that the
-- loops append to, with what the chain holds, in a snapshot file. The dashboard (dashboard/src)
-- lets the vault's admins and guardians sign in with their wallets; its routes read the contracts,
-- the reporter's snapshot and the alerts configuration, and its panels show them. The SDK (sdk/src)
-- signs and submits a call on behalf of the vault's smart account.
--
-- Every loop is modelled as its tick: a computation over a small state that may throw
-- (Prelude/Result), whose state lists the calls submitted and what is kept in files. What the
-- RPC, the contracts' clients, the SDK, the wallet and the clock answer is a parameter, as is IEEE
-- arithmetic (Prelude/Double) and JSON's parsing and printing. `bigint`s are integers (Prelude/Int,
-- division towards 0), seconds and ledgers natural numbers; maps and sets keep their insertion
-- order (Prelude/Maps). A route is a function of the server's state, the request and its cookie; a
-- hook or a panel is a state with its events, rendering being an event from outside.
--
-- The loop over pages of events runs on fuel, one unit for each page; it is enough whenever it
-- covers the pages that the server holds. A tick of the reporter has a fuel for each of its two
-- queries. The wait for a submitted transaction runs on fuel too, one unit for each poll: enough
-- when it covers the polls up to the first that does not answer that there is none yet.
--
-- The files:
-- - Prelude: the shared names, and Prelude/*: tests, lists, integers, sorting, maps, doubles, JSON
--   values, regular expressions, results and effects.
-- - Rpc/Retry: withRetry of keeper/src/swap.ts and dashboard/src/lib/withRetry.ts.
-- - Rpc/Pages: the getEvents loop of keeper/src/forecasterLoop.ts and five other files.
-- - Keeper/Sentinel: keeper/src/decision.ts and sentinel.ts (toBps, decideEscalation, tick).
-- - Keeper/Swap: keeper/src/swapDecision.ts and swap.ts (oracleDerivedMinOut, decideSwap, tick);
--   Contract: oracle_derived_min_out of contracts/policy-swap/src/lib.rs.
-- - Keeper/Forecaster: keeper/src/forecaster.ts (winsorize, median, halfLifeToAlpha, ewmaStep,
--   computeEwmas, computeTier0Target, applyHysteresis, shouldWriteOnChain, shouldRecall).
-- - Keeper/ForecasterLoop: keeper/src/forecasterLoop.ts (fetchHourlyBurnObservations, tick,
--   triggerRecall, scValToI128, the hysteresis file).
-- - Keeper/MetricsLog: keeper/src/metricsLog.ts (appendMetricEvent, readMetricEvents).
-- - Keeper/Reporter: keeper/src/reporter.ts (computePauseStats; Recalls: the latency histogram;
--   Errors: the backtest and its errors; Series: downsampleSeries, toTier0SeriesPoints) and
--   keeper/src/reporterLoop.ts (fetchPauseEvents and the log's samples; Tick: tick and main).
-- - Keeper/Reflector: keeper/src/reflectorQuorum.ts (QuorumTracker), reflectorSubscription.ts (the
--   cross-check; Canonical: sortObjectKeys, computeUpdateHash) and reflectorWebhookServer.ts
--   (handleConfirmedUpdate, the handler; Receive: readJsonBody, isReflectorNotification, and
--   verifyNotificationSignature of reflectorSubscription.ts).
-- - Keeper/Alerts: keeper/src/alertDispatcher.ts (dispatchAlert); Loop: alertDispatcherLoop.ts
--   (fetchNewPauseEvents, tick).
-- - Sdk/SmartAccount: sdk/src/smartAccountAuth.ts (delegatedSignerScVal, buildAuthPayloadScVal,
--   countInvocationNodes); Submit: authorizeAndSendSmartAccountCall. Signed is about the entries
--   that are attached, Entries about the call.
-- - Dashboard/ApiError: dashboard/src/lib/apiError.ts and apiClient.ts (classifyError,
--   withErrorHandling, fetchJson). Dashboard/ActionError: dashboard/src/lib/actions/actionError.ts.
-- - Dashboard/Auth: dashboard/src/lib/auth and the POST routes challenge and verify under
--   dashboard/src/app/api/auth; Routes: session/route.ts there, and the responses of all three on
--   the wire; Roster: isVaultAdmin and isGuardian of dashboard/src/lib/auth/authorization.ts;
--   Browser: dashboard/src/hooks/AuthProvider.tsx (refresh, signIn, signOut, the first render's
--   effect) against those routes, where each request may be lost, answered to nobody, or answered
--   with a garbled body.
-- - Dashboard/Routes: the GET routes under dashboard/src/app/api and dashboard/src/lib/telemetry.ts.
--   Access is about who gets an answer, Telemetry about the way of a snapshot from the reporter.
-- - Dashboard/AlertsConfig: dashboard/src/lib/alertsConfig.ts, alertsConfigValidation.ts and
--   dashboard/src/app/api/alerts/route.ts; Panel: dashboard/src/components/AlertsPanel.tsx (the
--   draft, toggleRoute, the inputs and save), against the route. A write of the file may throw.
-- - Dashboard/PauseHistory: dashboard/src/lib/contracts/pauseHistoryState.ts and pauseHistory.ts
--   (reconstructPauseHistory); Contract: pause, extend, resume_early and status of
--   contracts/health-monitor/src/lib.rs, which publishes the events.
-- - Dashboard/Proposals: dashboard/src/lib/contracts/timelockProposals.ts (fetchPendingProposals).
-- - Dashboard/GuardianPanel: dashboard/src/lib/contracts/healthMonitor.ts (fetchGuardianPanelData).
-- - Dashboard/Overview: dashboard/src/lib/contracts/vaultOverview.ts, riskProfile.ts and
--   systemState.ts.
-- - Dashboard/Checklist: dashboard/src/lib/onboardingChecklist.ts, formatAmount.ts and
--   dashboard/src/components/OnboardingChecklistPanel.tsx.
-- - Dashboard/Resource: dashboard/src/hooks/useApiResource.ts. The fetches that its effect starts are
--   a list, each with the key and the `ignore` of its closure.
-- - Tests: examples at concrete inputs.
--
-- Not modelled: log lines, process set-up and the waits between the ticks (pure I/O), the generated
-- contract clients, the contracts (but for the swap policy's least output and HealthMonitor's
-- pause state), the subscription manager (calls of a package that is not in the repository), the
-- text of alert payloads, the dashboard's other panels and the markup of all, and the keys and
-- bytes under the SDK's signatures.
pub mod Dashboard
pub mod Keeper
pub mod Prelude
pub mod Rpc
pub mod Sdk
pub mod Tests
