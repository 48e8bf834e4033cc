-- ===== src/Rpc/Pages.antt =====
-- The `for (;;)` loop over `server.getEvents` that forecasterLoop.ts, reporterLoop.ts,
-- alertDispatcherLoop.ts, pauseHistory.ts, healthMonitor.ts and timelockProposals.ts share: ask
-- from the start ledger, then from the last cursor, until a page has fewer events than the limit.
-- The server is a parameter; what the loop does with an event is a fold.
use Prim.Native.String.{String}
use mathlib.Core.List.{foldl, foldl-append}
use text.Mathlib.Text.{◌==◌ as str_eq}
use refluo.Prelude.Result.{Result, ok, err}
use refluo.Prelude.{
  ℕ, zero, suc, ◌+◌, ◌≡◌, true, false, Option, none, some, List, ◌++◌, length, ltb, if◌then◌else◌,
  arith,
}

-- What the request names: the start ledger, or the cursor of the page before.
pub data Position : Type 0 where
  start_ledger : ℕ → Position
  cursor : String → Position

pub record Page (E : Type 0) : Type 0 where
  pub events : List E
  pub next : String

abbrev pub limit : ℕ
limit = 1000

-- The empty cursor is falsy: the source then asks from the start ledger again.
abbrev pub position : ℕ → String → Position
position start c = if str_eq c "" then start_ledger start else cursor c

module _ {E S : Type 0} (server : Position → Result (Page E)) (start : ℕ)
    (on_event : S → E → S) where
  -- `none`: the fuel ran out. The loop's own state is kept in `s`.
  unfoldable pub fold_pages : (fuel : ℕ) → Position → S → Option (Result S)
  fold_pages zero at s = none
  fold_pages (suc fuel) at s = elim (server at) [
    | err m ↦ some (err m)
    | ok page ↦
        let s' = foldl on_event s page.events in
        let rest = fold_pages fuel (position start page.next) s' in
        if ltb (length page.events) limit then some (ok s') else rest
  ]

-- The server holds these events from a position on, in this many pages.
pub data Serves {E : Type 0} (server : Position → Result (Page E)) (start : ℕ)
    : ℕ → Position → List E → Type 0 where
  last :
      {at : Position} (page : Page E)
      → server at ≡ ok page
      → ltb (length page.events) limit ≡ true
      → Serves server start 1 at page.events
  more :
      {at : Position} {n : ℕ} {rest : List E} (page : Page E)
      → server at ≡ ok page
      → ltb (length page.events) limit ≡ false
      → Serves server start n (position start page.next) rest
      → Serves server start (suc n) at (page.events ++ rest)

module _ {E S : Type 0} (server : Position → Result (Page E)) (start : ℕ)
    (on_event : S → E → S) where
  one_more : (n extra : ℕ) → suc n + extra ≡ suc (n + extra)
  one_more n extra = omega arith

  -- With fuel for the pages that the server holds the loop ends, and has handled every event of
  -- every page once, in the server's order.
  pub fold_pages-Serves :
      {n : ℕ} {at : Position} {es : List E}
      → Serves server start n at es
      → (extra : ℕ) (s : S)
      → fold_pages server start on_event (n + extra) at s ≡ some (ok (foldl on_event s es))
  unfolding fold_pages
  fold_pages-Serves (last page e short) extra s =
      rw (one_more 0 extra) (rw (e, fold_pages) (rw (short)))
  fold_pages-Serves (more {n = n} {rest = rest} page e full later) extra s = rw (one_more n extra) (
      rw (e, fold_pages)
        (rw full (
          rw (foldl-append on_event s page.events rest)
            (fold_pages-Serves later extra (foldl on_event s page.events)))))
