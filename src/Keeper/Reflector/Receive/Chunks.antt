-- ===== src/Keeper/Reflector/Receive/Chunks.antt =====
-- A body is read the same however it is cut into chunks, up to its limit.
use Prim.Native.String.{String}
use text.Mathlib.Text.{◌==◌ as str_eq}
use text.Mathlib.TextEquality.{eq_iff}
use mathlib.Core.List.{append_assoc, append-nil}
use refluo.Prelude.Json.{Json}
use refluo.Prelude.Result.{Result, err}
use refluo.Prelude.{
  ℕ, ◌+◌, ◌≤◌, ◌≡◌, refl, ap, ◌∙◌, inl, inr, true, false, some, List, [], ◌∷◌, ◌++◌, length,
  length-append, arith, ltb, if◌then◌else◌, Bool-cases,
}
use refluo.Keeper.Reflector.Receive.{
  Bytes, max_body_bytes, StreamEvent, data_chunk, stream_end, read_json_body, read, request_of,
}

abbrev pub concat : List Bytes → Bytes
concat [] = []
concat (chunk ∷ chunks) = chunk ++ concat chunks

-- A stream that emits these chunks, ends, and then whatever it may.
abbrev pub emitted : List Bytes → List StreamEvent → List StreamEvent
emitted [] rest = stream_end ∷ rest
emitted (chunk ∷ chunks) rest = data_chunk chunk ∷ emitted chunks rest

module _ (parse_json : Bytes → Result Json) where
  -- The whole body, if it is not too long.
  abbrev pub whole_body : Bytes → Result Json
  whole_body body =
      if ltb max_body_bytes (length body) then err "request body too large" else parse_json body

  read_json_body-emitted :
      (received : ℕ) (so_far : Bytes) (chunks : List Bytes) (rest : List StreamEvent)
      → received ≡ length so_far
      → received ≤ max_body_bytes
      → read_json_body parse_json received so_far (emitted chunks rest)
        ≡ some (whole_body (so_far ++ concat chunks))
  unfolding read_json_body
  read_json_body-emitted received so_far [] rest e within =
      let fits : ltb max_body_bytes (length so_far) ≡ false = ground arith in
      rw (append-nil so_far) (rw fits refl)
  read_json_body-emitted received so_far (chunk ∷ chunks) rest e within =
      let total = length-append {0} so_far (chunk ++ concat chunks) in
      let tail = length-append {0} chunk (concat chunks) in
      elim (Bool-cases (ltb max_body_bytes (received + length chunk))) [
        | inl over ↦
            let too_long : ltb max_body_bytes (length (so_far ++ (chunk ++ concat chunks))) ≡ true =
              ground arith in
            rw (over, too_long) refl
        | inr under ↦ rw under (
            read_json_body-emitted (received + length chunk) (so_far ++ chunk) chunks rest
              (omega (arith, length-append {0} so_far chunk)) (ground arith)
            ∙ ap (λ b. some (whole_body b)) (append_assoc so_far chunk (concat chunks)))
      ]

  -- A POST to the webhook's path whose body comes in some chunks is handled as the notification
  -- that the whole body parses to, as malformed where it is none, or as unreadable where it does not
  -- parse or has more than 65,536 bytes, in whatever chunks it comes and whatever follows its end.
  pub request_of-emitted :
      (path : String) (number_of : String → ℕ) (chunks : List Bytes) (rest : List StreamEvent)
      → request_of path parse_json number_of "POST" path (emitted chunks rest)
        ≡ read path parse_json number_of (some (whole_body (concat chunks)))
  unfolding request_of
  request_of-emitted path number_of chunks rest =
      let itself : str_eq path path ≡ true = (eq_iff path path).1 refl in
      simp itself (
        ap (read path parse_json number_of)
          (read_json_body-emitted 0 [] chunks rest refl (omega arith)))
