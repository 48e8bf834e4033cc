-- ===== src/Tests/Series.antt =====
-- Examples for the reporter's series and its tick, with fractions in the place of doubles.
use native.Mathlib.Nat.{div-add-mod, mod-lt, mul-one, one-mul}
use refluo.Prelude.Result.{ok}
use refluo.Prelude.Double.{Double}
use refluo.Prelude.{
  if◌then◌else◌, ℕ, ◌+◌, ◌-◌, ◌*◌, ◌/◌, ◌%◌, ◌≤◌, ◌<◌, ◌≡◌, refl, arith, leb, some, List, [], ◌∷◌,
  pos, pos_part,
}
use refluo.Keeper.MetricsLog.{MetricEvent, tier0_sample}
use refluo.Keeper.ForecasterLoop.{TransferEvent, scv_i128}
use refluo.Keeper.Reporter.{RawEvent, paused, resumed}
use refluo.Keeper.Reporter.Tick.{Config, Answers}
use refluo.Keeper.Reporter.Series.{downsample_series}
use refluo.Keeper.Reporter.Series.Strides.{RoundLaws}

-- Numerator and denominator; only numbers from 0 on are added up here.
abbrev pub fraction : Double
fraction = record {
  Num = ℕ × ℕ;
  from_int = λ a. (pos_part a, 1);
  add = λ (a, b) (c, e). (a * e + c * b, b * e);
  sub = λ (a, b) (c, e). (a * e - c * b, b * e);
  mul = λ (a, b) (c, e). (a * c, b * e);
  div = λ (a, b) (c, e). (a * e, b * c);
  max_of = λ (a, b) (c, e). if leb (a * e) (c * b) then (c, e) else (a, b);
  abs = λ a. a;
  exp = λ a. (1, 1);
  neg = λ a. a;
  ln2 = (1, 1);
  round = λ (a, b). pos ((2 * a + b) / (2 * b));
  leb = λ (a, b) (c, e). leb (a * e) (c * b);
}

nearest_quotient :
    (n b : ℕ)
    → 0 < b
    → let r = (2 * n + b) / (2 * b) in (2 * n ≤ 2 * (r * b) + b) × (2 * (r * b) ≤ 2 * n + b)
nearest_quotient n b h =
    from ((2 * n + b) / (2 * b)) ((2 * n + b) % (2 * b)) (div-add-mod (2 * n + b) (2 * b))
      (mod-lt (2 * n + b) (omega arith))
  where
    from :
        (q m : ℕ)
        → 2 * b * q + m ≡ 2 * n + b
        → m < 2 * b
        → (2 * n ≤ 2 * (q * b) + b) × (2 * (q * b) ≤ 2 * n + b)
    from q m e l = grind arith

pub fraction_laws : RoundLaws fraction
fraction_laws = record {
  positive = λ n. ground arith;
  nearest = λ i a b l m h s. (
    (2 * (i * a) + b) / (2 * b),
    simp (mul-one, one-mul) refl,
    (nearest_quotient (i * a) b h).0,
    (nearest_quotient (i * a) b h).1,
  );
}

abbrev points : List ℕ
points = 10 ∷ 20 ∷ 30 ∷ 40 ∷ 50 ∷ 60 ∷ []

-- The strides are 2.5: a half is rounded up.
picks_three : downsample_series fraction points 3 ≡ some 10 ∷ some 40 ∷ some 60 ∷ []
unfolding downsample_series
picks_three = refl

abbrev pub cfg : Config
cfg = record {
  window_hours = 1;
  backtest_hours = 72;
  lookback_hours = 1;
  chart_series_max_points = 2;
}

abbrev sample : ℕ → MetricEvent
sample at = tier0_sample at (pos 9) (pos 8) (some (pos 1))

abbrev pub pauses : List RawEvent
pauses = paused 5_000 9_000 ∷ resumed 6_000 ∷ []

abbrev pub transfers : List TransferEvent
transfers =
    record { value = scv_i128 (pos 0) 40; ledger_closed_at_ms = 4_000_000 }
    ∷ record { value = scv_i128 (pos 0) 60; ledger_closed_at_ms = 8_000_000 }
    ∷ []

abbrev pub answers : Answers
answers = record {
  now_seconds = 8_000;
  query_seconds = 8_001;
  pause_ledger = ok 5_000;
  pause_pages = λ start position. ok (record { events = pauses; next = "" });
  tier0_log = sample 1_000 ∷ sample 5_000 ∷ sample 6_000 ∷ sample 7_000 ∷ [];
  recall_log = [];
  burn_ledger = ok 5_000;
  burn_pages = λ start position. ok (record { events = transfers; next = "" });
}
