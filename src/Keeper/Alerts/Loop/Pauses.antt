-- ===== src/Keeper/Alerts/Loop/Pauses.antt =====
-- The pauses that one query finds, and that the next one does not find again.
use mathlib.Core.List.{foldl, append-nil, append_assoc}
use refluo.Prelude.Result.{Result, ok}
use refluo.Prelude.Sort.{sort_by, IsSorted, sort_by-IsSorted, sort_by-All, sort_by-All-inv}
use refluo.Prelude.{
  ℕ, ◌+◌, ◌≤◌, ◌≡◌, refl, sym, ap, ◌∙◌, inl, inr, Bool, true, false, some, List, [], ◌∷◌, ◌++◌, map,
  keep, All, All-mono, keep-All, arith, ltb, Bool-cases,
}
use refluo.Rpc.Pages.{Position, Page, Serves, fold_pages-Serves}
use refluo.Keeper.Alerts.Loop.{
  PausedEvent, NewPause, new_pause, push_if_new, pause_before, sorted_pauses, start_ledger_since,
  fetch_new_pause_events, last_of,
}

-- The pauses newer than a time, in time order.
abbrev pub pauses_since : List PausedEvent → ℕ → List NewPause
pauses_since events since = sort_by pause_before (foldl (push_if_new since) [] events)

abbrev pub is_new : ℕ → NewPause → Bool
is_new since p = ltb since p.at_seconds

foldl-push_if_new :
    (since : ℕ) (acc : List NewPause) (events : List PausedEvent)
    → foldl (push_if_new since) acc events ≡ acc ++ keep (is_new since) (map new_pause events)
foldl-push_if_new since acc [] = sym (append-nil acc)
foldl-push_if_new since acc (e ∷ events) = elim (Bool-cases (is_new since (new_pause e))) [
  | inl new ↦
      rw (new, keep)
        (foldl-push_if_new since (acc ++ new_pause e ∷ []) events ∙ append_assoc acc _ _)
  | inr old ↦ rw (old, keep) (foldl-push_if_new since acc events)
]

abbrev UpTo : ℕ → List NewPause → Type 0
UpTo b = All (λ p. p.at_seconds ≤ b)

all_of_new :
    (since b : ℕ) (ps : List NewPause) → since ≤ b → UpTo b (keep (is_new since) ps) → UpTo b ps
all_of_new since b [] h k = tt
all_of_new since b (p ∷ ps) h k = elim (Bool-cases (is_new since p)) [
  | inl new ↦
      let (q, rest) : (p.at_seconds ≤ b) × UpTo b (keep (is_new since) ps) = rw (new, keep) at k in
      (q, all_of_new since b ps h rest)
  | inr old ↦ (ground arith, all_of_new since b ps h (rw (old, keep) at k))
]

none_new : (b : ℕ) (ps : List NewPause) → UpTo b ps → keep (is_new b) ps ≡ []
none_new b [] h = refl
none_new b (p ∷ ps) (q, h) = rw (old, keep) (none_new b ps h)
  where
    old : is_new b p ≡ false
    old = ground arith

last_of-UpTo :
    (d : ℕ) (ps : List NewPause)
    → IsSorted pause_before ps
    → All (λ p. d ≤ p.at_seconds) ps
    → (d ≤ last_of d ps) × UpTo (last_of d ps) ps
last_of-UpTo d [] s h = (omega arith, tt)
last_of-UpTo d (p ∷ ps) (first, s) (q, h) =
    let (above, rest) = last_of-UpTo p.at_seconds ps s (
      All-mono (λ r. pause_before p r ≡ true) (λ r. p.at_seconds ≤ r.at_seconds)
        (λ r e. ground arith) ps first) in
    (omega arith, (above, rest))

pauses_since_lem :
    (events : List PausedEvent) (since : ℕ)
    → pauses_since events since ≡ sort_by pause_before (keep (is_new since) (map new_pause events))
pauses_since_lem events since = ap (sort_by pause_before) (foldl-push_if_new since [] events)

abbrev found_since : List PausedEvent → ℕ → List NewPause
found_since events since = keep (is_new since) (map new_pause events)

found-UpTo :
    (events : List PausedEvent) (since : ℕ)
    → let last = last_of since (sort_by pause_before (found_since events since)) in
      (since ≤ last) × UpTo last (sort_by pause_before (found_since events since))
found-UpTo events since =
    last_of-UpTo since (sort_by pause_before (found_since events since))
      (sort_by-IsSorted pause_before (λ a b c h k. ground arith) (λ a b h. ground arith) _)
      (sort_by-All _ pause_before _ (
        All-mono (λ p. is_new since p ≡ true) (λ p. since ≤ p.at_seconds) (λ p e. ground arith) _
          (keep-All (is_new since) (map new_pause events))))

pub pauses_since-again :
    (events : List PausedEvent) (since : ℕ)
    → pauses_since events (last_of since (pauses_since events since)) ≡ []
unfolding sort_by
pauses_since-again events since =
    let (above, bound) = found-UpTo events since in
    rw (pauses_since_lem events since) (
      pauses_since_lem events _
      ∙ ap (sort_by pause_before) (
          none_new _ (map new_pause events) (
            all_of_new since _ (map new_pause events) above
              (sort_by-All-inv _ pause_before (found_since events since) bound))))

-- If the ledger is known and the server holds some Paused events in some pages, the query ends with
-- fuel for those pages and returns those newer than the time asked for, sorted by time.
fetch_new_pause_events-Serves :
    (max_lookback_ledgers sequence now_seconds since : ℕ)
    (server : ℕ → Position → Result (Page PausedEvent)) (extra : ℕ) {n : ℕ} {es : List PausedEvent}
    → let start = start_ledger_since max_lookback_ledgers sequence now_seconds since in
      Serves (server start) start n (Position.start_ledger start) es
      → (fetch_new_pause_events max_lookback_ledgers
            (ok sequence)
            now_seconds
            server
            (n + extra)
            since
          ≡ some (ok (sort_by pause_before (keep (is_new since) (map new_pause es)))))
        × IsSorted pause_before (sort_by pause_before (keep (is_new since) (map new_pause es)))
unfolding fetch_new_pause_events
fetch_new_pause_events-Serves max_lookback_ledgers sequence now_seconds since server extra {n} {es}
      s =
    (
      ap sorted_pauses (fold_pages-Serves _ _ (push_if_new since) s extra [])
          ∙ ap (λ ps. some (ok ps)) (pauses_since_lem es since),
      sort_by-IsSorted pause_before (λ a b c h k. ground arith) (λ a b h. ground arith) _,
    )
