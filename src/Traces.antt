-- ===== src/Traces.antt =====
-- The trace of a request, apps/api/src/common/observability/request-context.ts: W3C `traceparent`
-- headers read and written. `trim` is JavaScript's.
use expenseflow.Common.{
  ℕ, zero, suc, ◌+◌, ◌≡◌, refl, Text, text, [], ◌∷◌, ◌++◌, map, Option, none, some, Bool, true,
  false, not, ◌&&◌, ◌||◌, leb, eqb, all, length, starts_with, slice_from, is_empty, if◌then◌else◌,
  arith,
}
use expenseflow.Schema.{TraceContext}

abbrev is_lower_hex : ℕ → Bool
is_lower_hex c = leb b'0' c && leb c b'9' || leb b'a' c && leb c b'f'

abbrev is_hex : ℕ → Bool
is_hex c = is_lower_hex c || leb b'A' c && leb c b'F'

abbrev to_lower : ℕ → ℕ
to_lower c = if leb b'A' c && leb c b'Z' then c + 32 else c

-- `[0-9a-f]{n}` at the start of a text, with what follows it.
unfoldable pub take_hex : ℕ → Text → Option (Text × Text)
take_hex zero s = some ([], s)
take_hex (suc n) [] = none
take_hex (suc n) (c ∷ s) = let rest = take_hex n s in if is_hex c then with_digit c rest else none
  where
    with_digit : ℕ → Option (Text × Text) → Option (Text × Text)
    with_digit c none = none
    with_digit c (some (digits, s)) = some (c ∷ digits, s)

-- A literal at the start of a text.
unfoldable pub expect : Text → Text → Option Text
expect literal s = if starts_with s literal then some (slice_from (length literal) s) else none

infixl 5 ◌>>=◌
abbrev ◌>>=◌ : {A B : Type 0} → Option A → (A → Option B) → Option B
none >>= f = none
some a >>= f = f a

unfoldable pub all_zero : Text → Bool
all_zero t = all (λ c. eqb c b'0') t

-- `parseTraceparent`: the trace id and the span id of a valid header.
unfoldable pub parse_traceparent : (Text → Text) → Text → Option (Text × Text)
parse_traceparent trim value = expect (text "00-") (trim value) >>= λ s. take_hex 32 s >>= λ trace.
    expect (text "-") trace.1 >>= λ s'. take_hex 16 s' >>= λ span.
    expect (text "-") span.1 >>= λ s''. take_hex 2 s'' >>= λ flags.
    if is_empty flags.1 && not (all_zero trace.0) && not (all_zero span.0)
    then some (map to_lower trace.0, map to_lower span.0)
    else none

-- `toTraceparent`
unfoldable pub to_traceparent : TraceContext → Text
to_traceparent context =
    text "00-" ++ (context.trace_id ++ (text "-" ++ (context.span_id ++ text "-01")))

abbrev or_random : Option Text → Text → Text
or_random none random = random
or_random (some []) random = random
or_random (some (c ∷ t)) random = c ∷ t

abbrev incoming_of : (Text → Text) → Option Text → Option (Text × Text)
incoming_of trim none = none
incoming_of trim (some []) = none
incoming_of trim (some (c ∷ t)) = parse_traceparent trim (c ∷ t)

abbrev incoming_trace : Option (Text × Text) → Option Text
incoming_trace none = none
incoming_trace (some (trace, span)) = some trace

abbrev incoming_span : Option (Text × Text) → Option Text
incoming_span none = none
incoming_span (some (trace, span)) = some span

-- `RequestContextService.create`, with the random ids that it may draw.
unfoldable pub create :
    (Text → Text)
    → (uuid random_trace random_span : Text) → (request_id traceparent : Option Text) → TraceContext
create trim uuid random_trace random_span request_id traceparent =
    let incoming = incoming_of trim traceparent in
    record {
      request_id = or_random request_id uuid;
      trace_id = or_random (incoming_trace incoming) random_trace;
      span_id = random_span;
      parent_span_id = incoming_span incoming;
    }

-- An id as `randomHex` makes them: lower-case hexadecimal digits, not all of them zero.
abbrev pub IsHexId : ℕ → Text → Type 0
IsHexId n t = (length t ≡ n) × (all is_lower_hex t ≡ true) × (all_zero t ≡ false)

take_hex-append :
    (n : ℕ) (t s : Text)
    → length t ≡ n
    → all is_lower_hex t ≡ true
    → take_hex n (t ++ s) ≡ some (t, s)
unfolding take_hex
take_hex-append zero [] s e h = refl
take_hex-append zero (c ∷ t) s e h = absurd (omega (arith, e))
take_hex-append (suc n) [] s e h = absurd (omega (arith, e))
take_hex-append (suc n) (c ∷ t) s e h =
    let rest = take_hex-append n t s (omega (arith, e)) (ground arith) in rw rest (ground arith)

map-to_lower : (t : Text) → all is_lower_hex t ≡ true → map to_lower t ≡ t
map-to_lower [] h = refl
map-to_lower (c ∷ t) h = ground (arith, map-to_lower t)

parse-to_traceparent :
    (trim : Text → Text) (context : TraceContext)
    → trim (to_traceparent context) ≡ to_traceparent context
    → IsHexId 32 context.trace_id
    → IsHexId 16 context.span_id
    → parse_traceparent trim (to_traceparent context) ≡ some (context.trace_id, context.span_id)
unfolding parse_traceparent to_traceparent expect starts_with slice_from text
parse-to_traceparent trim context trimmed (n, h, z) (m, g, y) =
    let tail : Text = 45 ∷ 48 ∷ 49 ∷ [] in
    rw trimmed (
      rw (take_hex-append 32 context.trace_id (45 ∷ (context.span_id ++ tail)) n h) (
        rw (take_hex-append 16 context.span_id tail m g) (
          rw (take_hex-append 2 (48 ∷ 49 ∷ []) [] refl refl) (
            rw z (
              rw y (
                rw (map-to_lower context.trace_id h)
                  (rw (map-to_lower context.span_id g) refl)))))))

or_random-some : (n : ℕ) (t random : Text) → length t ≡ suc n → or_random (some t) random ≡ t
or_random-some n [] random e = absurd (omega (arith, e))
or_random-some n (c ∷ t) random e = refl

-- A request that carries the header written for a context with valid ids, which trimming leaves
-- alone, gets the context's trace id and the context's span as its parent.
pub create-to_traceparent :
    (trim : Text → Text) (uuid random_trace random_span : Text) (request_id : Option Text)
    (context : TraceContext)
    → trim (to_traceparent context) ≡ to_traceparent context
    → IsHexId 32 context.trace_id
    → IsHexId 16 context.span_id
    → let child =
        create trim uuid random_trace random_span request_id (some (to_traceparent context)) in
      (child.trace_id ≡ context.trace_id) × (child.parent_span_id ≡ some context.span_id)
unfolding create to_traceparent text
create-to_traceparent trim uuid random_trace random_span request_id context trimmed trace span =
    let parsed = parse-to_traceparent trim context trimmed trace span in
    rw parsed (or_random-some 31 context.trace_id random_trace trace.0, refl)
