-- ===== src/Keeper/ForecasterLoop/Buckets.antt =====
-- Burn ingestion: what the hourly observations say of the transfers on the server's pages.
use mathlib.Core.List.{foldl}
use refluo.Prelude.Result.{Result, ok}
use refluo.Prelude.Sort.{insert_by, sort_by, IsSorted, sort_by-IsSorted}
use refluo.Prelude.Maps.{
  map_get, map_set, nat_eq, map_get-hit, map_get-skip, map_set-hit, map_set-skip,
}
use refluo.Prelude.{
  ℕ, ◌+◌, ◌≡◌, refl, sym, ap, ◌∙◌, inl, inr, Bool, true, some, List, [], ◌∷◌, map, arith, All, leb,
  if◌then◌else◌, ◌==◌, ==_iff, Bool-cases, ℤ, pos, ◌+ℤ◌, int_laws,
}
use refluo.Rpc.Pages.{Position, Page, Serves, fold_pages-Serves}
use refluo.Keeper.Forecaster.{BurnObservation}
use refluo.Keeper.ForecasterLoop.{
  ScVal, scv_i128, scv_other, i128, TransferEvent, Buckets, hour_bucket, add_to_bucket, add_value,
  on_transfer, entry_before, observation, observations_of, start_ledger_of, observed,
  fetch_hourly_burn_observations,
}

pub at_hour : ℕ → ℕ → ℤ → ℤ
at_hour h k a = if k == h then a else pos 0

-- What the buckets hold for an hour.
abbrev pub sum_at : ℕ → Buckets → ℤ
sum_at h [] = pos 0
sum_at h ((k, a) ∷ m) = at_hour h k a +ℤ sum_at h m

abbrev pub amount_of : ScVal → ℤ
amount_of (scv_i128 hi lo) = i128 hi lo
amount_of scv_other = pos 0

-- What the transfers whose ledger closed in an hour come to.
abbrev pub burned_in : ℕ → List TransferEvent → ℤ
burned_in h [] = pos 0
burned_in h (e ∷ es) =
    at_hour h (hour_bucket e.ledger_closed_at_ms) (amount_of e.value) +ℤ burned_in h es

-- What the observations say for an hour.
abbrev pub observed_in : ℕ → List BurnObservation → ℤ
observed_in h [] = pos 0
observed_in h (o ∷ os) = at_hour h o.timestamp_seconds o.amount_stroops +ℤ observed_in h os

+ℤ-zero : (a : ℤ) → a +ℤ pos 0 ≡ a
+ℤ-zero a = omega int_laws

zero-+ℤ : (a : ℤ) → pos 0 +ℤ a ≡ a
zero-+ℤ a = omega int_laws

regroup : (a b c : ℤ) → a +ℤ b +ℤ c ≡ a +ℤ (b +ℤ c)
regroup a b c = omega int_laws

exchange : (a b c : ℤ) → a +ℤ (b +ℤ c) ≡ b +ℤ (a +ℤ c)
exchange a b c = omega int_laws

swap_right : (a b c : ℤ) → a +ℤ b +ℤ c ≡ a +ℤ c +ℤ b
swap_right a b c = omega int_laws

at_hour-add : (h k : ℕ) (a b : ℤ) → at_hour h k (a +ℤ b) ≡ at_hour h k a +ℤ at_hour h k b
unfolding at_hour
at_hour-add h k a b = elim (Bool-cases (k == h)) [
  | inl e ↦ rw (e)
  | inr e ↦ rw (e) (sym (zero-+ℤ (pos 0)))
]

at_hour-zero : (h k : ℕ) → at_hour h k (pos 0) ≡ pos 0
unfolding at_hour
at_hour-zero h k = elim (Bool-cases (k == h)) [ inl e ↦ rw (e) | inr e ↦ rw (e) ]

sum_at-add_to_bucket :
    (h k : ℕ) (a : ℤ) (m : Buckets) → sum_at h (add_to_bucket m k a) ≡ sum_at h m +ℤ at_hour h k a
sum_at-add_to_bucket h k a [] = unfold map_get map_set in start
  where
    start : at_hour h k (pos 0 +ℤ a) +ℤ pos 0 ≡ pos 0 +ℤ at_hour h k a
    start = rw (zero-+ℤ a) (+ℤ-zero (at_hour h k a) ∙ sym (zero-+ℤ (at_hour h k a)))
sum_at-add_to_bucket h k a ((j, w) ∷ m) = elim (Bool-cases (j == k)) [
  | inl e ↦
      rw (map_get-hit j k w m e, map_set-hit j k w m (w +ℤ a) e, (==_iff j k).0 e)
        (rw (at_hour-add h k w a) (swap_right (at_hour h k w) (at_hour h k a) (sum_at h m)))
  | inr e ↦
      rw (map_get-skip j k w m e, map_set-skip j k w m _ e)
        (ap (λ s. at_hour h j w +ℤ s) (sum_at-add_to_bucket h k a m)
          ∙ sym (regroup (at_hour h j w) (sum_at h m) (at_hour h k a)))
]

sum_at-on_transfer :
    (h : ℕ) (m : Buckets) (e : TransferEvent)
    → sum_at h (on_transfer m e)
      ≡ sum_at h m +ℤ at_hour h (hour_bucket e.ledger_closed_at_ms) (amount_of e.value)
unfolding on_transfer
sum_at-on_transfer h m e = by_value e.value
  where
    by_value :
        (v : ScVal)
        → sum_at h (add_value m (hour_bucket e.ledger_closed_at_ms) v)
          ≡ sum_at h m +ℤ at_hour h (hour_bucket e.ledger_closed_at_ms) (amount_of v)
    by_value (scv_i128 hi lo) = sum_at-add_to_bucket h _ (i128 hi lo) m
    by_value scv_other = rw (at_hour-zero h) (sym (+ℤ-zero (sum_at h m)))

sum_at-foldl :
    (h : ℕ) (m : Buckets) (es : List TransferEvent)
    → sum_at h (foldl on_transfer m es) ≡ sum_at h m +ℤ burned_in h es
sum_at-foldl h m [] = sym (+ℤ-zero (sum_at h m))
sum_at-foldl h m (e ∷ es) =
    sum_at-foldl h (on_transfer m e) es
    ∙ ap (λ s. s +ℤ burned_in h es) (sum_at-on_transfer h m e)
    ∙ regroup (sum_at h m) _ (burned_in h es)

sum_at-insert_by :
    (h : ℕ) (x : ℕ × ℤ) (m : Buckets) → sum_at h (insert_by entry_before x m) ≡ sum_at h (x ∷ m)
unfolding insert_by
sum_at-insert_by h (k, a) [] = refl
sum_at-insert_by h (k, a) ((j, w) ∷ m) = elim (Bool-cases (leb k j)) [
  | inl e ↦ rw (e, insert_by)
  | inr e ↦
      rw (e, insert_by)
        (ap (λ s. at_hour h j w +ℤ s) (sum_at-insert_by h (k, a) m)
          ∙ exchange (at_hour h j w) (at_hour h k a) (sum_at h m))
]

sum_at-sort_by : (h : ℕ) (m : Buckets) → sum_at h (sort_by entry_before m) ≡ sum_at h m
unfolding sort_by
sum_at-sort_by h [] = refl
sum_at-sort_by h ((k, a) ∷ m) =
    sum_at-insert_by h (k, a) (sort_by entry_before m)
    ∙ ap (λ s. at_hour h k a +ℤ s) (sum_at-sort_by h m)

observed_in-map : (h : ℕ) (m : Buckets) → observed_in h (map observation m) ≡ sum_at h m
observed_in-map h [] = refl
observed_in-map h ((k, a) ∷ m) = ap (λ s. at_hour h k a +ℤ s) (observed_in-map h m)

-- Not later than the next.
abbrev pub earlier : BurnObservation → BurnObservation → Bool
earlier a b = leb a.timestamp_seconds b.timestamp_seconds

map-IsSorted : (m : Buckets) → IsSorted entry_before m → IsSorted earlier (map observation m)
map-IsSorted [] s = tt
map-IsSorted ((k, a) ∷ m) (h, s) = (each m h, map-IsSorted m s)
  where
    each :
        (m : Buckets)
        → All (λ y. entry_before (k, a) y ≡ true) m
        → All (λ o. earlier (observation (k, a)) o ≡ true) (map observation m)
    each [] h = tt
    each ((j, b) ∷ m) (p, h) = (p, each m h)

observations_of-IsSorted : (m : Buckets) → IsSorted earlier (observations_of m)
unfolding observations_of
observations_of-IsSorted m = map-IsSorted (sort_by entry_before m) (
    sort_by-IsSorted entry_before (λ (a, _) (b, _) (c, _) h k. ground arith)
      (λ (a, _) (b, _) h. ground arith) m)

-- If the ledger is known and the server holds some transfers in some pages, the query ends with
-- fuel for those pages, in time order, and says for every hour exactly what the transfers of that
-- hour with an i128 value come to.
pub fetch_hourly_burn_observations-Serves :
    (lookback_hours sequence : ℕ) (server : ℕ → Position → Result (Page TransferEvent)) (extra : ℕ)
    {n : ℕ} {es : List TransferEvent}
    → Serves
        (server (start_ledger_of sequence lookback_hours))
        (start_ledger_of sequence lookback_hours)
        n
        (Position.start_ledger (start_ledger_of sequence lookback_hours))
        es
    → (os : List BurnObservation) × (fetch_hourly_burn_observations lookback_hours
          (ok sequence)
          server
          (n + extra)
        ≡ some (ok os))
      × IsSorted earlier os
      × ((h : ℕ) → observed_in h os ≡ burned_in h es)
unfolding fetch_hourly_burn_observations observations_of
fetch_hourly_burn_observations-Serves lookback_hours sequence server extra {n} {es} s =
    let buckets : Buckets = foldl on_transfer [] es in
    (
      observations_of buckets,
      ap observed (fold_pages-Serves _ _ on_transfer s extra []),
      observations_of-IsSorted buckets,
      λ h. hour_total h,
    )
  where
    hour_total :
        (h : ℕ) → observed_in h (observations_of (foldl on_transfer [] es)) ≡ burned_in h es
    hour_total h =
        observed_in-map h (sort_by entry_before (foldl on_transfer [] es))
        ∙ sum_at-sort_by h (foldl on_transfer [] es)
        ∙ sum_at-foldl h [] es
        ∙ zero-+ℤ (burned_in h es)
