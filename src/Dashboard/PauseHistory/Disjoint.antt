-- ===== src/Dashboard/PauseHistory/Disjoint.antt =====
-- The episodes do not overlap, whatever the events.
use mathlib.Core.List.{foldl, reverse, reverse-cons}
use refluo.Prelude.{
  ℕ, ◌+◌, ◌≤◌, ◌≡◌, refl, Bool, true, false, Option, none, some, List, [], ◌∷◌, ◌++◌, ◌&&◌, arith,
  ltb, if◌then◌else◌,
}
use refluo.Dashboard.PauseHistory.{
  PauseEpisode, Replay, RawEvent, paused, extended, resumed, resolve, resumed_early, cut_short,
  opened, extend, replay_event, classify, all_episodes, nothing_yet, reconstruct_pause_history,
}
use refluo.Dashboard.PauseHistory.Refine.{spans, spans-cut_short, spans-classify}

abbrev pub happened_at : RawEvent → ℕ
happened_at (paused t trigger expiry) = t
happened_at (extended t used expiry) = t
happened_at (resumed t) = t

abbrev pub IsChronological : ℕ → List RawEvent → Type 0
IsChronological last [] = Unit
IsChronological last (e ∷ es) = (last ≤ happened_at e) × IsChronological (happened_at e) es

-- How many of the episodes span a second.
abbrev pub spanning : ℕ → List PauseEpisode → ℕ
spanning t [] = 0
spanning t (e ∷ es) = (if spans t e then 1 else 0) + spanning t es

spanning-append :
    (t : ℕ) (xs ys : List PauseEpisode) → spanning t (xs ++ ys) ≡ spanning t xs + spanning t ys
spanning-append t [] ys = omega arith
spanning-append t (x ∷ xs) ys = omega (arith, spanning-append t xs ys)

spanning-reverse : (t : ℕ) (xs : List PauseEpisode) → spanning t (reverse xs) ≡ spanning t xs
spanning-reverse t [] = refl
spanning-reverse t (x ∷ xs) =
    rw (reverse-cons x xs, spanning-append t (reverse xs) (x ∷ []), spanning-reverse t xs)
      (omega arith)

-- The closed episodes are over by `since`, the start of the open one.
record AreClosed (t : ℕ) (since : ℕ) (es : List PauseEpisode) : Type 0 where
  once : spanning t es ≤ 1
  over : since ≤ t → spanning t es ≡ 0

data IsOpen (last : ℕ) : ℕ → Option PauseEpisode → Type 0 where
  closed : IsOpen last last none
  running :
      (e : PauseEpisode)
      → e.resolved_at_seconds ≡ none
      → e.paused_at_seconds ≤ last
      → IsOpen last e.paused_at_seconds (some e)

AreClosed-once :
    (t since : ℕ) (es : List PauseEpisode) (e : PauseEpisode)
    → AreClosed t since es
    → (spans t e ≡ true → since ≤ t)
    → spanning t (es ++ e ∷ []) ≤ 1
AreClosed-once t since es e c h =
    rw (spanning-append t es (e ∷ [])) (at_most (spanning t es) (spans t e) c.once c.over h)
  where
    at_most :
        (n : ℕ) (b : Bool)
        → n ≤ 1
        → (since ≤ t → n ≡ 0)
        → (b ≡ true → since ≤ t)
        → n + ((if b then 1 else 0) + 0) ≤ 1
    at_most n true l z f = let gone = z (f refl) in omega arith
    at_most n false l z f = omega arith

AreClosed-append :
    (t since at : ℕ) (es : List PauseEpisode) (e : PauseEpisode)
    → AreClosed t since es
    → since ≤ at
    → (spans t e ≡ true → since ≤ t)
    → (at ≤ t → spans t e ≡ false)
    → AreClosed t at (es ++ e ∷ [])
AreClosed-append t since at es e c l h k = record {
  once = AreClosed-once t since es e c h;
  over =
      λ late. rw (spanning-append t es (e ∷ [])) (rw (k late) (neither _ (c.over (omega arith))));
}
  where
    neither : (n : ℕ) → n ≡ 0 → n + (0 + 0) ≡ 0
    neither n e = omega arith

module _ (now t : ℕ) where
  abbrev at : List PauseEpisode → Option PauseEpisode → Replay
  at es e = record { episodes = es; current = e }

  replay_lem :
      (last since : ℕ) (es : List PauseEpisode) (e : Option PauseEpisode) (events : List RawEvent)
      → IsOpen last since e
      → AreClosed t since es
      → IsChronological last events
      → spanning t (all_episodes now (foldl replay_event (at es e) events)) ≤ 1
  replay_lem last _ es _ [] closed c h = c.once
  replay_lem last _ es _ [] (running e k l) c h =
      AreClosed-once t _ es (classify now e) c
        (λ on. let on' : spans t e ≡ true = rw (spans-classify now t e k) at on in ground arith)
  replay_lem last _ es _ (paused b trigger expiry ∷ events) closed c (m, h) =
      replay_lem b _ es _ events (running (opened b trigger expiry) refl (omega arith))
        (record { once = c.once; over = λ late. c.over (omega arith) }) h
  replay_lem last _ es _ (paused b trigger expiry ∷ events) (running e k l) c (m, h) =
      replay_lem b _ (es ++ cut_short b e ∷ []) _ events
        (running (opened b trigger expiry) refl (omega arith))
        (AreClosed-append t _ b es (cut_short b e) c (omega arith)
          (λ on.
            let on' : (spans t e && ltb t b) ≡ true = rw (spans-cut_short now t b e k) at on in
            ground arith)
          (λ late. rw (spans-cut_short now t b e k) (ground arith)))
        h
  replay_lem last _ es _ (extended b used expiry ∷ events) closed c (m, h) =
      replay_lem b _ es none events closed
        (record { once = c.once; over = λ late. c.over (omega arith) }) h
  replay_lem last _ es _ (extended b used expiry ∷ events) (running e k l) c (m, h) =
      replay_lem b _ es _ events (running (extend b used expiry e) k (omega arith)) c h
  replay_lem last _ es _ (resumed b ∷ events) closed c (m, h) =
      replay_lem b _ es none events closed
        (record { once = c.once; over = λ late. c.over (omega arith) }) h
  replay_lem last _ es _ (resumed b ∷ events) (running e k l) c (m, h) =
      replay_lem b _ (es ++ resolve resumed_early b e ∷ []) none events closed
        (AreClosed-append t _ b es (resolve resumed_early b e) c (omega arith) (λ on. ground arith)
          (λ late. ground arith))
        h

-- Whatever events come in the order of their times, no second is spanned by two of the episodes.
pub reconstruct_pause_history-spanning :
    (events : List RawEvent) (now t : ℕ)
    → IsChronological 0 events
    → spanning t (reconstruct_pause_history events now) ≤ 1
unfolding reconstruct_pause_history
reconstruct_pause_history-spanning events now t h =
    rw (spanning-reverse t (all_episodes now (foldl replay_event nothing_yet events))) (
      replay_lem now t 0 0 [] none events closed
        (record { once = omega arith; over = λ l. omega arith }) h)
