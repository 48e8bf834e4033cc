-- ===== src/Dashboard/PauseHistory/Fetch.antt =====
-- What the incidents page shows of the events that the ledger still serves.
use mathlib.Core.List.{foldl, append_assoc, append-nil}
use refluo.Prelude.Result.{Result, ok}
use refluo.Prelude.{ℕ, ◌+◌, ◌≡◌, sym, ap, ◌∙◌, none, some, List, [], ◌∷◌, ◌++◌, map, any}
use refluo.Rpc.Pages.{Position, start_ledger, Page, Serves, fold_pages-Serves}
use refluo.Dashboard.PauseHistory.{
  PauseEpisode, ContractEvent, raw_event, push_raw, lookback_start, replayed,
  reconstruct_pause_history, fetch_pause_history,
}
use refluo.Dashboard.PauseHistory.Contract.{Call, events_of, status_at}
use refluo.Dashboard.PauseHistory.Refine.{spans, IsRun, reconstruct_pause_history-status_at}

foldl-push_raw :
    (events : List _) (es : List ContractEvent)
    → foldl push_raw events es ≡ events ++ map raw_event es
foldl-push_raw events [] = sym (append-nil events)
foldl-push_raw events (e ∷ es) =
    foldl-push_raw (push_raw events e) es
    ∙ append_assoc events (raw_event e ∷ []) (map raw_event es)

-- If the server's pages from the start of the lookback hold just the events that HealthMonitor has
-- published, by calls in the order of their times of which none resumes a pause behind its expiry,
-- then with fuel for those pages the read ends in a list of episodes that span exactly the seconds
-- in which the contract's status was paused.
pub fetch_pause_history-status_at :
    (server : Position → Result (Page ContractEvent)) (lookback now sequence n extra : ℕ)
    (es : List ContractEvent) (calls : List Call)
    → Serves server
        (lookback_start sequence lookback)
        n
        (start_ledger (lookback_start sequence lookback))
        es
    → map raw_event es ≡ events_of none calls
    → IsRun 0 none calls
    → (episodes : List PauseEpisode) × (fetch_pause_history server lookback now
          (n + extra)
          (ok sequence)
        ≡ some (ok episodes))
      × ((t : ℕ) → any (spans t) episodes ≡ status_at none calls t)
unfolding fetch_pause_history
fetch_pause_history-status_at server lookback now sequence n extra es calls serves same run =
    let start = lookback_start sequence lookback in
    let read = fold_pages-Serves server start push_raw serves extra [] in
    (
      reconstruct_pause_history (events_of none calls) now,
      ap (replayed now) (read ∙ ap (λ events. some (ok events)) (foldl-push_raw [] es ∙ same)),
      λ t. reconstruct_pause_history-status_at calls now t run,
    )
