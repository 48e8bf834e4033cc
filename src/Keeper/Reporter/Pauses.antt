-- ===== src/Keeper/Reporter/Pauses.antt =====
-- The pause time that is reported, second by second, and the pairing of pauses with resumes.
use refluo.Prelude.{
  ℕ, zero, suc, ◌+◌, ◌-◌, min, max, ◌≡◌, refl, ap, ◌∙◌, inl, inr, Bool, true, ◌&&◌, Option, none,
  some, List, [], ◌∷◌, map, arith, ltb, leb, if◌then◌else◌, Bool-cases,
}
use refluo.Keeper.Reporter.{
  PauseEvent, PauseStats, real_end, clipped_start, clipped_end, pause_stats_from,
  compute_pause_stats, RawEvent, paused, resumed, new_pause, pair_pauses,
}

-- The event's pause covers a second.
abbrev pub covers : PauseEvent → ℕ → Bool
covers event t = leb event.paused_at_seconds t && ltb t (real_end event)

-- How many of the `n` seconds from a time on the event's pause covers.
abbrev pub covered : PauseEvent → ℕ → ℕ → ℕ
covered event from zero = 0
covered event from (suc n) = (if covers event from then 1 else 0) + covered event (from + 1) n

abbrev pub covered_by_all : List PauseEvent → ℕ → ℕ → ℕ
covered_by_all [] from n = 0
covered_by_all (e ∷ events) from n = covered e from n + covered_by_all events from n

abbrev pub overlapping : List PauseEvent → ℕ → ℕ → ℕ
overlapping [] from n = 0
overlapping (e ∷ events) from n =
    (if ltb 0 (covered e from n) then 1 else 0) + overlapping events from n

covered-clipped :
    (event : PauseEvent) (from n : ℕ)
    → covered event from n ≡ clipped_end (from + n) event - clipped_start from event
covered-clipped event from zero = omega arith
covered-clipped event from (suc n) =
    let rest = covered-clipped event (from + 1) n in
    step event.paused_at_seconds (real_end event) rest
  where
    step :
        (a e : ℕ)
        → covered event (from + 1) n ≡ min e (from + 1 + n) - max a (from + 1)
        → (if leb a from && ltb from e then 1 else 0) + covered event (from + 1) n
          ≡ min e (from + suc n) - max a from
    step a e h = rw (h) (ground arith)

abbrev stats : ℕ → ℕ → PauseStats
stats count total = record { pause_count = count; total_pause_duration_seconds = total }

stats_eq : (a b c e : ℕ) → a ≡ b → c ≡ e → stats a c ≡ stats b e
stats_eq a b c e h k = rw (h, k)

pause_stats_from_lem :
    (from n : ℕ) (count total : ℕ) (events : List PauseEvent)
    → pause_stats_from from (from + n) (stats count total) events
      ≡ stats (count + overlapping events from n) (total + covered_by_all events from n)
unfolding pause_stats_from
pause_stats_from_lem from n count total [] = stats_eq _ _ _ _ (omega arith) (omega arith)
pause_stats_from_lem from n count total (e ∷ events) =
    elim (Bool-cases (leb (clipped_end (from + n) e) (clipped_start from e))) [
      | inl outside ↦
          let none_covered : covered e from n ≡ 0 = ground (arith, covered-clipped e from n) in
          rw (outside) (
            pause_stats_from_lem from n count total events
            ∙ rw (none_covered) (stats_eq _ _ _ _ (omega arith) (omega arith)))
      | inr inside ↦
          let some_covered : ltb 0 (covered e from n) ≡ true =
            ground (arith, covered-clipped e from n) in
          rw (inside) (
            pause_stats_from_lem from n (count + 1)
              (total + (clipped_end (from + n) e - clipped_start from e)) events
            ∙ rw (some_covered)
                (stats_eq _ _ _ _ (omega arith) (omega (arith, covered-clipped e from n))))
    ]

pub compute_pause_stats-covered :
    (events : List PauseEvent) (from n : ℕ)
    → compute_pause_stats events from (from + n) ≡ record {
      pause_count = overlapping events from n;
      total_pause_duration_seconds = covered_by_all events from n;
    }
unfolding compute_pause_stats
compute_pause_stats-covered events from n =
    pause_stats_from_lem from n 0 0 events ∙ stats_eq _ _ _ _ (omega arith) (omega arith)

abbrev pub pause_times : List RawEvent → List ℕ
pause_times [] = []
pause_times (paused at expiry ∷ raw) = at ∷ pause_times raw
pause_times (resumed at ∷ raw) = pause_times raw

abbrev open_times : Option PauseEvent → List ℕ
open_times none = []
open_times (some event) = event.paused_at_seconds ∷ []

abbrev onto : List ℕ → List ℕ → List ℕ
onto [] ts = ts
onto (t ∷ us) ts = t ∷ onto us ts

pair_pauses_times :
    (open_pause : Option PauseEvent) (raw : List RawEvent)
    → map (λ e. e.paused_at_seconds) (pair_pauses open_pause raw)
      ≡ onto (open_times open_pause) (pause_times raw)
unfolding pair_pauses
pair_pauses_times none [] = refl
pair_pauses_times (some event) [] = refl
pair_pauses_times none (paused at expiry ∷ raw) = pair_pauses_times (some (new_pause at expiry)) raw
pair_pauses_times (some event) (paused at expiry ∷ raw) =
    ap (λ ts. event.paused_at_seconds ∷ ts) (pair_pauses_times (some (new_pause at expiry)) raw)
pair_pauses_times none (resumed at ∷ raw) = pair_pauses_times none raw
pair_pauses_times (some event) (resumed at ∷ raw) =
    ap (λ ts. event.paused_at_seconds ∷ ts) (pair_pauses_times none raw)

-- Pairing keeps every Paused event as one pause, in order, whatever Resumed events stand between.
pair_pauses-pause_times :
    (raw : List RawEvent) → map (λ e. e.paused_at_seconds) (pair_pauses none raw) ≡ pause_times raw
pair_pauses-pause_times raw = pair_pauses_times none raw
