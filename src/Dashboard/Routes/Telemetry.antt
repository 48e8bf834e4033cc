-- ===== src/Dashboard/Routes/Telemetry.antt =====
-- The snapshot from the reporter's loop to the dashboard's panel.
use refluo.Prelude.Result.{Result, ok, err}
use refluo.Prelude.Double.{Double}
use refluo.Prelude.{◌≡◌, refl, sym, ◌∙◌, Option, none, some, List, [], ◌∷◌, arith}
use refluo.Dashboard.ApiError.{with_error_handling}
use refluo.Dashboard.Auth.{SessionPayload, Codec, get_session}
use refluo.Dashboard.Routes.{
  telemetry, Caller, snapshot_body, Answers, read_sla_snapshot, get_route,
}
use refluo.Keeper.Reporter.{PauseEvent}
use refluo.Keeper.Reporter.Tick.{
  Config, SlaSnapshot, SnapshotFile, absent, holds, Round, written, with_burns, burns, with_pauses,
  snapshot_of, tick, main,
}

module _ (d : Double) (cfg : Config) where
  abbrev pub tick_of : Round d → SnapshotFile d → Option (Result (SlaSnapshot d) × SnapshotFile d)
  tick_of r = tick d cfg r.answers r.pause_fuel r.burn_fuel

  -- What the rounds' ticks come to.
  pub data Ends : List (Round d) → List (Result (SlaSnapshot d)) → Type 0 where
    done : Ends [] []
    round :
        (r : Round d) (result : Result (SlaSnapshot d)) {rounds : List (Round d)}
        {results : List (Result (SlaSnapshot d))} {after : SnapshotFile d}
        → tick_of r absent ≡ some (result, after)
        → Ends rounds results
        → Ends (r ∷ rounds) (result ∷ results)

  -- The snapshot of the last tick that came to one.
  abbrev pub latest :
      Option (SlaSnapshot d) → List (Result (SlaSnapshot d)) → Option (SlaSnapshot d)
  latest before [] = before
  latest before (ok snapshot ∷ results) = latest (some snapshot) results
  latest before (err m ∷ results) = latest before results

  abbrev stored : SnapshotFile d → Result (SlaSnapshot d) → SnapshotFile d
  stored file (ok snapshot) = holds snapshot
  stored file (err m) = file

  module _ (r : Round d) (file : SnapshotFile d) (result : Result (SlaSnapshot d))
      (after : SnapshotFile d) where
    written-stored :
        (s : Result (SlaSnapshot d))
        → ◌≡◌ {A = Option (Result (SlaSnapshot d) × SnapshotFile d)}
            (some (written d cfg r.answers absent s))
            (some (result, after))
        → ◌≡◌ {A = Option (Result (SlaSnapshot d) × SnapshotFile d)}
            (some (written d cfg r.answers file s))
            (some (result, stored file result))
    written-stored (ok snapshot) e = let same : ok snapshot ≡ result = cc e in rw (sym same) refl
    written-stored (err m) e = let same : err m ≡ result = cc e in rw (sym same) refl

    with_burns-stored :
        (pauses : List PauseEvent) (b : Option (Result _))
        → with_burns d cfg r.answers absent pauses b ≡ some (result, after)
        → with_burns d cfg r.answers file pauses b ≡ some (result, stored file result)
    with_burns-stored pauses none e = absurd (ground arith)
    with_burns-stored pauses (some (err m)) e =
        let same : err m ≡ result = cc e in rw (sym same) refl
    with_burns-stored pauses (some (ok observations)) e =
        written-stored (snapshot_of d cfg r.answers pauses observations) e

    with_pauses-stored :
        (p : Option (Result (List PauseEvent)))
        → with_pauses d cfg r.answers r.burn_fuel absent p ≡ some (result, after)
        → with_pauses d cfg r.answers r.burn_fuel file p ≡ some (result, stored file result)
    with_pauses-stored none e = absurd (ground arith)
    with_pauses-stored (some (err m)) e = let same : err m ≡ result = cc e in rw (sym same) refl
    with_pauses-stored (some (ok pauses)) e =
        with_burns-stored pauses (burns d cfg r.answers r.burn_fuel) e

    tick-stored :
        tick_of r absent ≡ some (result, after) → tick_of r file ≡ some (result, stored file result)
    unfolding tick
    tick-stored e = with_pauses-stored _ e

  read-stored :
      (file : SnapshotFile d) (result : Result (SlaSnapshot d))
      (results : List (Result (SlaSnapshot d)))
      → latest (read_sla_snapshot d (stored file result)) results
        ≡ latest (read_sla_snapshot d file) (result ∷ results)
  unfolding read_sla_snapshot
  read-stored file (ok snapshot) results = refl
  read-stored file (err m) results = refl

  -- What the file holds behind some rounds.
  main-latest :
      {rounds : List (Round d)} {results : List (Result (SlaSnapshot d))}
      → Ends rounds results
      → (file : SnapshotFile d)
      → (left : SnapshotFile d) × (main d cfg rounds file ≡ some left)
        × (read_sla_snapshot d left ≡ latest (read_sla_snapshot d file) results)
  unfolding main
  main-latest done file = (file, refl, refl)
  main-latest (round r result {rounds} {results} {after} e rest) file =
      let (left, runs, reads) = main-latest rest (stored file result) in
      (
        left,
        rw (tick-stored r file result after e, main) runs,
        reads ∙ read-stored file result results,
      )

  -- If the ticks of some rounds of the reporter's loop come to some results, then the loop goes
  -- through all of them from any snapshot file, and on the file as it leaves it the telemetry route
  -- answers a caller who has a session with the snapshot of the last tick that came to one, with the
  -- file's old one where no tick did, or, where that is missing or unreadable, with none.
  pub main-get_route :
      (codec : Codec) (caller : Caller) (session : SessionPayload) (rounds : List (Round d))
      (results : List (Result (SlaSnapshot d))) (file : SnapshotFile d) (a : Answers d)
      → get_session codec caller.session_secret caller.now_seconds caller.cookie ≡ some session
      → Ends rounds results
      → (left : SnapshotFile d) × (main d cfg rounds file ≡ some left)
        × (get_route d codec telemetry caller (record a { snapshot_file = left }) ≡ record {
          status = 200;
          body = some (snapshot_body (latest (read_sla_snapshot d file) results));
        })
  unfolding get_route with_error_handling
  main-get_route codec caller session rounds results file a known ends =
      let (left, runs, reads) = main-latest ends file in (left, runs, simp (known, reads))
