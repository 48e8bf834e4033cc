-- ===== src/Tests/MetricsLog.antt =====
-- Examples for the metrics log, with a codec in the place of JSON: a brace, then one byte above
-- 12 for each field.
use refluo.Prelude.{
  ℕ, zero, suc, ◌+◌, ◌-◌, ◌≡◌, ◌≢◌, refl, ap, ◌∙◌, Option, none, some, List, [], ◌∷◌, ◌++◌, All,
  map, arith, ℤ, pos, negsuc,
}
use refluo.Keeper.MetricsLog.{
  TxStatus, success, failed, not_found, MetricEvent, tier0_sample, recall_triggered, other_event,
  Json, newline, append_metric_event, read_metric_events,
}
use refluo.Keeper.MetricsLog.Lines.{IsWhole, finished, read-append_metric_event}

sign : ℤ → ℕ
sign (pos n) = 0
sign (negsuc n) = 1

magnitude : ℤ → ℕ
magnitude (pos n) = n
magnitude (negsuc n) = n

int_of : ℕ → ℕ → ℤ
int_of zero n = pos n
int_of (suc s) n = negsuc n

status_code : TxStatus → ℕ
status_code success = 0
status_code failed = 1
status_code not_found = 2

status_of : ℕ → TxStatus
status_of zero = success
status_of (suc zero) = failed
status_of (suc (suc n)) = not_found

fields : MetricEvent → List ℕ
unfolding sign magnitude status_code
fields (tier0_sample at b t none) = 0 ∷ at ∷ sign b ∷ magnitude b ∷ sign t ∷ magnitude t ∷ []
fields (tier0_sample at b t (some f)) =
    1 ∷ at ∷ sign b ∷ magnitude b ∷ sign t ∷ magnitude t ∷ sign f ∷ magnitude f ∷ []
fields (recall_triggered at detected executed shortfall status) =
    2 ∷ at ∷ detected ∷ executed ∷ sign shortfall ∷ magnitude shortfall ∷ status_code status ∷ []
fields (other_event at) = 3 ∷ at ∷ []

event_of : List ℕ → Option MetricEvent
unfolding int_of status_of
event_of (zero ∷ at ∷ sb ∷ b ∷ st ∷ t ∷ []) =
    some (tier0_sample at (int_of sb b) (int_of st t) none)
event_of (suc zero ∷ at ∷ sb ∷ b ∷ st ∷ t ∷ sf ∷ f ∷ []) =
    some (tier0_sample at (int_of sb b) (int_of st t) (some (int_of sf f)))
event_of (suc (suc zero) ∷ at ∷ detected ∷ executed ∷ ss ∷ s ∷ code ∷ []) =
    some (recall_triggered at detected executed (int_of ss s) (status_of code))
event_of (suc (suc (suc zero)) ∷ at ∷ []) = some (other_event at)
event_of _ = none

int_of-sign : (z : ℤ) → int_of (sign z) (magnitude z) ≡ z
unfolding sign magnitude int_of
int_of-sign (pos n) = refl
int_of-sign (negsuc n) = refl

status_of-code : (s : TxStatus) → status_of (status_code s) ≡ s
unfolding status_of status_code
status_of-code success = refl
status_of-code failed = refl
status_of-code not_found = refl

event_of-fields : (e : MetricEvent) → event_of (fields e) ≡ some e
unfolding event_of fields
event_of-fields (tier0_sample at b t none) = simp (int_of-sign)
event_of-fields (tier0_sample at b t (some f)) = simp (int_of-sign)
event_of-fields (recall_triggered at detected executed shortfall status) =
    simp (int_of-sign, status_of-code)
event_of-fields (other_event at) = refl

unshift-shift : (xs : List ℕ) → map (λ n. n - 13) (map (λ n. n + 13) xs) ≡ xs
unshift-shift [] = refl
unshift-shift (x ∷ xs) =
    ap (λ y. y ∷ map (λ n. n - 13) (map (λ n. n + 13) xs)) (back x)
    ∙ ap (λ ys. x ∷ ys) (unshift-shift xs)
  where
    back : (x : ℕ) → x + 13 - 13 ≡ x
    back x = omega arith

shift-one_line : (xs : List ℕ) → All (λ c. c ≢ newline) (map (λ n. n + 13) xs)
shift-one_line [] = tt
shift-one_line (x ∷ xs) = (λ e. omega arith, shift-one_line xs)

encode : MetricEvent → List ℕ
unfolding fields
encode e = b'{' ∷ map (λ n. n + 13) (fields e)

decode : List ℕ → Option MetricEvent
unfolding event_of
decode [] = none
decode (b ∷ xs) = event_of (map (λ n. n - 13) xs)

codec : Json
codec = record {
  stringify = encode;
  parse = decode;
  parse_stringify = decode-encode;
  one_line = encode-one_line;
  is_object = λ e. (map (λ n. n + 13) (fields e), unfold encode in refl);
}
  where
    decode-encode : (e : MetricEvent) → decode (encode e) ≡ some e
    decode-encode e =
        unfold decode encode in ap event_of (unshift-shift (fields e)) ∙ event_of-fields e

    encode-one_line : (e : MetricEvent) → All (λ c. c ≢ newline) (encode e)
    encode-one_line e = unfold encode in (λ e. omega arith, shift-one_line (fields e))

abbrev a_sample : MetricEvent
a_sample = tier0_sample 60 (pos 500) (pos 800) none

abbrev a_recall : MetricEvent
a_recall = recall_triggered 60 60 66 (pos 300) success

abbrev one_sample : List ℕ
one_sample = codec.stringify a_sample

read-append_metric_event_example :
    (read_metric_events codec
        (append_metric_event codec (some (one_sample ++ newline ∷ [])) a_recall)
      ≡ read_metric_events codec (some (one_sample ++ newline ∷ [])) ++ a_recall ∷ [])
    × IsWhole codec (append_metric_event codec (some (one_sample ++ newline ∷ [])) a_recall)
read-append_metric_event_example =
    read-append_metric_event codec (some (one_sample ++ newline ∷ [])) a_recall
      (finished one_sample)
