-- ===== src/Dashboard/PauseHistory/Refine.antt =====
-- The incidents page against the contract whose events it replays.
use mathlib.Core.List.{foldl, reverse, reverse-cons}
use refluo.Prelude.{
  ℕ, ◌+◌, ◌≤◌, ◌<◌, ◌≡◌, refl, sym, ap, ◌∙◌, inl, inr, Bool, true, false, ◌&&◌, ◌||◌, Option, none,
  some, List, [], ◌∷◌, ◌++◌, arith, any, leb, ltb, if◌then◌else◌, or_else, Bool-cases,
}
use refluo.Dashboard.PauseHistory.{
  PauseEpisode, Replay, RawEvent, resolve, resumed_early, cut_short, opened, replay_event, classify,
  all_episodes, nothing_yet, reconstruct_pause_history,
}
use refluo.Dashboard.PauseHistory.Contract.{
  PauseState, Call, pause, extend, resume_early, time, status, call, after_call, events_of,
  status_at, max_pause_duration, is_refused, extended_state,
}

-- The page shows the vault as paused in a second that an episode spans.
abbrev pub ends : PauseEpisode → ℕ
ends e = or_else e.resolved_at_seconds e.final_pause_expiry_seconds

abbrev pub spans : ℕ → PauseEpisode → Bool
spans t e = leb e.paused_at_seconds t && ltb t (ends e)

-- The admin does not resume a pause that is over.
abbrev pub IsInTime : Option PauseState → Call → Type 0
IsInTime (some s) (resume_early now) = s.is_paused ≡ true → now ≤ s.pause_expiry
IsInTime _ _ = Unit

-- Calls in the order of their times, the first not before `last`.
abbrev pub IsRun : ℕ → Option PauseState → List Call → Type 0
IsRun last s [] = Unit
IsRun last s (c ∷ cs) = (last ≤ time c) × IsInTime s c × IsRun (time c) (after_call s (call s c)) cs

status_at-status :
    (last : ℕ) (s : Option PauseState) (cs : List Call) (t : ℕ)
    → IsRun last s cs
    → t < last
    → status_at s cs t ≡ status s t
unfolding status_at
status_at-status last s [] t h l = refl
status_at-status last s (c ∷ cs) t (h, k, run) l =
    let early : ltb t (time c) ≡ true = ground arith in simp early refl

-- The open episode is the contract's pause, if it has one.
data Linked (last : ℕ) : Option PauseState → Option PauseEpisode → Type 0 where
  fresh : Linked last none none
  idle : (s : PauseState) → s.is_paused ≡ false → Linked last (some s) none
  live :
      (s : PauseState) (e : PauseEpisode)
      → s.is_paused ≡ true
      → e.resolved_at_seconds ≡ none
      → e.final_pause_expiry_seconds ≡ s.pause_expiry
      → e.paused_at_seconds ≤ last
      → Linked last (some s) (some e)

abbrev from_start : Option PauseEpisode → ℕ → Bool
from_start none t = true
from_start (some e) t = leb e.paused_at_seconds t

any-append :
    (p : PauseEpisode → Bool) (xs ys : List PauseEpisode) → any p (xs ++ ys) ≡ any p xs || any p ys
any-append p [] ys = refl
any-append p (x ∷ xs) ys = ground (arith, any-append p xs ys)

any-reverse : (p : PauseEpisode → Bool) (xs : List PauseEpisode) → any p (reverse xs) ≡ any p xs
any-reverse p [] = refl
any-reverse p (x ∷ xs) =
    rw (reverse-cons x xs, any-append p (reverse xs) (x ∷ []), any-reverse p xs) (ground arith)

module _ (now t : ℕ) where
  pub spans-cut_short :
      (at : ℕ) (e : PauseEpisode)
      → e.resolved_at_seconds ≡ none
      → spans t (cut_short at e) ≡ (spans t e && ltb t at)
  spans-cut_short at e h = elim (Bool-cases (leb e.final_pause_expiry_seconds at)) [
    | inl over ↦ simp (over, h) (ground arith)
    | inr cut ↦ simp (cut, h) (ground arith)
  ]

  pub spans-classify :
      (e : PauseEpisode) → e.resolved_at_seconds ≡ none → spans t (classify now e) ≡ spans t e
  spans-classify e h = elim (Bool-cases (leb e.final_pause_expiry_seconds now)) [
    | inl over ↦ simp (over, h) refl
    | inr cut ↦ simp (cut, h) refl
  ]

  abbrev shown_by : Replay → List RawEvent → Bool
  shown_by r events = any (spans t) (all_episodes now (foldl replay_event r events))

  abbrev at : List PauseEpisode → Option PauseEpisode → Replay
  at es e = record { episodes = es; current = e }

  -- A call that is refused leaves no trace in the contract's answers.
  status_at-skip :
      (c : ℕ) (s : Option PauseState) (cs : List Call)
      → IsRun c s cs
      → (if ltb t c then status s t else status_at s cs t) ≡ status_at s cs t
  status_at-skip c s cs run = elim (Bool-cases (ltb t c)) [
    | inl early ↦ rw early (sym (status_at-status c s cs t run (ground arith)))
    | inr late ↦ rw late refl
  ]

  replay_lem :
      (last : ℕ) (s : Option PauseState) (es : List PauseEpisode) (e : Option PauseEpisode)
      (cs : List Call)
      → Linked last s e
      → IsRun last s cs
      → shown_by (at es e) (events_of s cs)
        ≡ any (spans t) es || (from_start e t && status_at s cs t)
  unfolding events_of status_at
  replay_lem last _ es _ [] fresh run = ground arith
  replay_lem last _ es _ [] (idle s h) run = ground arith
  replay_lem last _ es _ [] (live s e h k f l) run =
      any-append (spans t) es (classify now e ∷ [])
      ∙ rw (spans-classify e k, h, k, f) (ground arith)
  replay_lem last _ es _ (pause c ∷ cs) fresh (l, k, run) =
      replay_lem c _ es (some (opened c "Guardian" (c + max_pause_duration))) cs
        (live _ _ refl refl refl (omega arith)) run
      ∙ ground arith
  replay_lem last _ es _ (pause c ∷ cs) (idle s h) (l, k, run) =
      replay_lem c _ es (some (opened c "Guardian" (c + max_pause_duration))) cs
        (live _ _ refl refl refl (omega arith)) run
      ∙ ground arith
  replay_lem last _ es _ (pause c ∷ cs) (live s e h k f l) (m, i, run) =
      replay_lem c _ (es ++ cut_short c e ∷ [])
        (some (opened c "Guardian" (c + max_pause_duration))) cs
        (live _ _ refl refl refl (omega arith)) run
      ∙ rw (any-append (spans t) es (cut_short c e ∷ []), spans-cut_short c e k, h, k, f)
          (ground arith)
  replay_lem last _ es _ (extend c ∷ cs) fresh (l, k, run) =
      replay_lem c none es none cs fresh run ∙ rw (status_at-skip c none cs run) refl
  replay_lem last _ es _ (extend c ∷ cs) (idle s h) (l, k, run) =
      let refused : is_refused c s ≡ true = ground arith in
      let later : IsRun c (some s) cs = simp refused at run in
      simp refused (
        replay_lem c (some s) es none cs (idle s h) later
        ∙ rw (status_at-skip c (some s) cs later) refl)
  replay_lem last _ es _ (extend c ∷ cs) (live s e h k f l) (m, i, run) =
      elim (Bool-cases (is_refused c s)) [
        | inl refused ↦
            let later : IsRun c (some s) cs = simp refused at run in
            simp refused (
              replay_lem c (some s) es (some e) cs (live s e h k f (omega arith)) later
              ∙ rw (status_at-skip c (some s) cs later) refl)
        | inr taken ↦
            let s' : Option PauseState = some (extended_state c s) in
            let later : IsRun c s' cs = simp taken at run in
            simp taken (
              replay_lem c s' es _ cs (live _ _ h k refl (omega arith)) later
              ∙ rw h (ground (arith, status_at-skip c s' cs later)))
      ]
  replay_lem last _ es _ (resume_early c ∷ cs) fresh (l, k, run) =
      replay_lem c none es none cs fresh run ∙ rw (status_at-skip c none cs run) refl
  replay_lem last _ es _ (resume_early c ∷ cs) (idle s h) (l, k, run) =
      replay_lem c _ es none cs (idle _ refl) run
      ∙ rw h (
          ap (λ b. any (spans t) es || b)
            (sym (status_at-skip c (some (record s { is_paused = false })) cs run)))
  replay_lem last _ es _ (resume_early c ∷ cs) (live s e h k f l) (m, i, run) =
      let skip = status_at-skip c (some (record s { is_paused = false })) cs run in
      let live_still : c ≤ s.pause_expiry = i h in
      replay_lem c _ (es ++ resolve resumed_early c e ∷ []) none cs (idle _ refl) run
      ∙ rw (any-append (spans t) es (resolve resumed_early c e ∷ [])) (rw h (ground (arith, skip)))

-- From a HealthMonitor that was never paused, whatever calls follow in the order of their times,
-- if no pause is resumed behind its expiry: the episodes that the page makes of the events that
-- the calls publish span exactly the seconds in which the contract's status was paused.
pub reconstruct_pause_history-status_at :
    (calls : List Call) (now t : ℕ)
    → IsRun 0 none calls
    → any (spans t) (reconstruct_pause_history (events_of none calls) now) ≡ status_at none calls t
unfolding reconstruct_pause_history
reconstruct_pause_history-status_at calls now t run =
    any-reverse (spans t) (all_episodes now (foldl replay_event nothing_yet (events_of none calls)))
    ∙ replay_lem now t 0 none [] none calls fresh run
