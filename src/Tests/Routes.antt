-- ===== src/Tests/Routes.antt =====
-- Examples for the read-only routes and the roles behind them.
use refluo.Prelude.Result.{ok, err, Holds}
use refluo.Prelude.{ℕ, ◌≡◌, refl, true, false, none, some, [], ◌∷◌, arith, leb, if◌then◌else◌}
use refluo.Dashboard.Auth.{Answers, resolve_dashboard_role, get_session, verify_session_token}
use refluo.Dashboard.Auth.Roster.{Contracts, with_contracts}
use refluo.Dashboard.Auth.Roster.Roles.{Rests, resolve_dashboard_role-Rests}
use refluo.Dashboard.Routes.{
  Answers as Reads, telemetry, vault_status, Caller, snapshot_body, read_sla_snapshot, get_route,
}
use refluo.Dashboard.Routes.Access.{IsAnswered, get_route-IsAnswered}
use refluo.Dashboard.Routes.Telemetry.{done, round, latest, main-get_route}
use refluo.Keeper.Reporter.{tier0_samples, fetch_pause_events}
use refluo.Keeper.Reporter.Tick.{SlaSnapshot, SnapshotFile, absent, holds, Round, tick, main}
use refluo.Tests.Auth.{codec, cookie, session}
use refluo.Keeper.Reporter.Tick.Snapshots.{tick-IsReport}
use refluo.Rpc.Pages.{last}
use refluo.Tests.Series.{fraction, fraction_laws, cfg, answers as good_answers, pauses, transfers}

-- The vault's second read of rule 0 succeeds.
abbrev contracts : Contracts ℕ
contracts = record {
  get_context_rule = λ id attempt. if leb 1 attempt then ok 7 else err "timeout";
  simulate_rule = λ assembled attempt. ok (record {
    id = 0;
    name = "R_ADMIN";
    valid_until = none;
    signers = record { tag = "Delegated"; value = "GADMIN" } ∷ [];
    policies = [];
  });
  guardians = λ attempt. ok 8;
  simulate_guardians = λ assembled attempt. ok ("GGUARD" ∷ []);
}

abbrev request : Answers
request = record {
  now_seconds = 1_100;
  random_nonce = "n2";
  is_vault_admin = λ address. ok false;
  is_guardian = λ address. ok false;
  verify_sep53_signature = λ message signature address. true;
  session_secret = "secret";
}

resolve_dashboard_role-Rests_example :
    Holds
      (Rests contracts "GGUARD")
      (resolve_dashboard_role codec (with_contracts contracts request) "GGUARD")
resolve_dashboard_role-Rests_example = resolve_dashboard_role-Rests contracts "GGUARD" codec request

abbrev caller : Caller
caller = record { cookie = cookie; session_secret = "secret"; now_seconds = 4_000 }

abbrev reads : Reads fraction
reads = record {
  snapshot_file = absent;
  overview = err "timeout";
  status = err "timeout";
  guardian_panel = err "timeout";
  addresses = record {
    vault_address = "CVAULT";
    risk_engine_id = "CRISK";
    health_monitor_id = "CHEALTH";
    timelock_id = "CTIME";
    usdc_token_id = "CUSDC";
    xlm_token_id = "CXLM";
  };
  proposals = ok [];
  episodes = ok [];
}

get_route-IsAnswered_example :
    IsAnswered fraction codec vault_status
      (record caller { cookie = none })
      reads
      (get_route fraction codec vault_status (record caller { cookie = none }) reads)
get_route-IsAnswered_example =
    get_route-IsAnswered fraction codec vault_status (record caller { cookie = none }) reads

-- A round whose tick comes to a snapshot, and one that cannot reach its server.
abbrev good : Round fraction
good = record { answers = good_answers; pause_fuel = 1; burn_fuel = 1 }

abbrev bad : Round fraction
bad = record {
  answers = record good_answers { pause_ledger = err "down" };
  pause_fuel = 1;
  burn_fuel = 1;
}

good_tick :
    (snapshot : SlaSnapshot fraction) × (tick fraction cfg good_answers 1 1 absent
      ≡ some (ok snapshot, holds snapshot))
unfolding tier0_samples
good_tick =
    let (snapshot, e, report) =
      tick-IsReport fraction cfg good_answers fraction_laws pauses transfers 1 1 5_000 5_000 0 0
        absent (omega arith) (omega arith) (omega arith) refl refl (last _ refl refl)
        (last _ refl refl) in
    (snapshot, e)

bad_tick : tick fraction cfg bad.answers 1 1 absent ≡ some (err "down", absent)
unfolding tick fetch_pause_events
bad_tick = refl

known : get_session codec caller.session_secret caller.now_seconds caller.cookie ≡ some session
unfolding verify_session_token
known = refl

main-get_route_example :
    (left : SnapshotFile fraction) × (main fraction cfg (good ∷ bad ∷ []) absent ≡ some left)
    × (get_route fraction codec telemetry caller (record reads { snapshot_file = left }) ≡ record {
      status = 200;
      body = some (
          snapshot_body (
            latest fraction cfg
              (read_sla_snapshot fraction absent)
              (ok good_tick.0 ∷ err "down" ∷ [])));
    })
main-get_route_example =
    main-get_route fraction cfg codec caller session (good ∷ bad ∷ [])
      (ok good_tick.0 ∷ err "down" ∷ []) absent reads known
      (round good (ok good_tick.0) good_tick.1 (round bad (err "down") bad_tick done))
