-- ===== src/Mitm/Stream/Lines.antt =====
-- src/mitm/sse.rs: a stream is the lines of what is read of it.
use ctxward.Prelude.{
  ◌≡◌, refl, ap, sym, ◌∙◌, true, false, Option, none, some, Bool-cases, inl, inr, Option-cases,
  List, [], ◌∷◌, ◌++◌, Text, length, append_nil, append_assoc, map, arith,
}
use ctxward.Json.{Value}
use ctxward.Proxy.Outcome.{merge_policy_outcomes, merge_all}
use ctxward.Proxy.Sse.{SseTransformResult, builtin_allow, payload_of}
use ctxward.Proxy.Sse.Lines.{split_lines, split_lines-rest, drain_lines-split}
use ctxward.Proxy.Sse.Chunks.{all_lines, with_rest, all_lines-append, nothing}
use ctxward.Mitm.Usage.{Usage}
use ctxward.Mitm.Stream.{
  Frame, content, trailers, broken, StreamState, stream_start, usage_of, with_usage, unless_metered,
  meter_sse_usage, send_line, send_all, flush, redact_sse_stream,
}

-- What is read before the first error.
abbrev pub readable : List Frame → Text
readable [] = []
readable (broken ∷ frames) = []
readable (trailers ∷ frames) = readable frames
readable (content chunk ∷ frames) = chunk ++ readable frames

-- The first of the values that are there.
abbrev pub first_some {ℓ} : {A : Type ℓ} → List (Option A) → List A
first_some [] = []
first_some (none ∷ os) = first_some os
first_some (some a ∷ os) = a ∷ []

module _ (parse_json : Text → Option Value) where
  meter-sent : (line : Text) (s : StreamState) → (meter_sse_usage parse_json line s).sent ≡ s.sent
  unfolding meter_sse_usage
  meter-sent line s = elim (Bool-cases s.metered) [
    | inl e ↦ rw (meter_sse_usage, e) refl
    | inr e ↦ elim (Option-cases (usage_of parse_json (payload_of line))) [
      | inl n ↦ rw (meter_sse_usage, e, n) refl
      | inr (u, n) ↦ rw (meter_sse_usage, e, n) refl
    ]
  ]

  meter-policy :
      (line : Text) (s : StreamState)
      → (meter_sse_usage parse_json line s).acc_policy ≡ s.acc_policy
  unfolding meter_sse_usage
  meter-policy line s = elim (Bool-cases s.metered) [
    | inl e ↦ rw (meter_sse_usage, e) refl
    | inr e ↦ elim (Option-cases (usage_of parse_json (payload_of line))) [
      | inl n ↦ rw (meter_sse_usage, e, n) refl
      | inr (u, n) ↦ rw (meter_sse_usage, e, n) refl
    ]
  ]

  -- The calls of `llm_tokens`, and the flag, after a line.
  meter-metered :
      (line : Text) (s : StreamState) → s.metered ≡ true → meter_sse_usage parse_json line s ≡ s
  unfolding meter_sse_usage
  meter-metered line s e = ap (λ b. unless_metered b (usage_of parse_json (payload_of line)) s) e

  meter-none :
      (line : Text) (s : StreamState)
      → s.metered ≡ false
      → usage_of parse_json (payload_of line) ≡ none
      → meter_sse_usage parse_json line s ≡ s
  unfolding meter_sse_usage
  meter-none line s e n =
      ap (λ b. unless_metered b (usage_of parse_json (payload_of line)) s) e
      ∙ ap (λ u. with_usage u s) n

  meter-some :
      (line : Text) (s : StreamState) (u : Usage)
      → s.metered ≡ false
      → usage_of parse_json (payload_of line) ≡ some u
      → meter_sse_usage parse_json line s
        ≡ record s { llm_tokens = s.llm_tokens ++ u ∷ []; metered = true }
  unfolding meter_sse_usage
  meter-some line s u e n =
      ap (λ b. unless_metered b (usage_of parse_json (payload_of line)) s) e
      ∙ ap (λ o. with_usage o s) n

module _ (parse_json : Text → Option Value) (text_of : Text → Text)
    (transform : Text → SseTransformResult) where
  abbrev pub line_usage : Text → Option Usage
  line_usage line = usage_of parse_json (payload_of (text_of line))

  send_all-append :
      (ls ms : List Text) (s : StreamState)
      → send_all parse_json text_of transform (ls ++ ms) s
        ≡ send_all parse_json text_of transform ms (send_all parse_json text_of transform ls s)
  unfolding send_all
  send_all-append [] ms s = refl
  send_all-append (l ∷ ls) ms s = send_all-append ls ms (send_line parse_json text_of transform l s)

  flush-all :
      (buffer : Text) (s : StreamState)
      → flush parse_json text_of transform buffer s
        ≡ send_all parse_json text_of transform (with_rest ([], buffer)) s
  unfolding flush send_all
  flush-all [] s = refl
  flush-all (b ∷ buffer) s = refl

  whole_buffer :
      (buffer : Text)
      → split_lines buffer ≡ ([], buffer)
      → with_rest ([], buffer) ≡ all_lines (buffer ++ [])
  whole_buffer buffer h = ap with_rest (sym h ∙ ap split_lines (sym (append_nil buffer)))

  stream-all :
      (frames : List Frame) (buffer : Text) (s : StreamState)
      → split_lines buffer ≡ ([], buffer)
      → redact_sse_stream parse_json text_of transform frames buffer s
        ≡ send_all parse_json text_of transform (all_lines (buffer ++ readable frames)) s
  unfolding redact_sse_stream
  stream-all [] buffer s h =
      flush-all buffer s
      ∙ ap (λ ls. send_all parse_json text_of transform ls s) (whole_buffer buffer h)
  stream-all (broken ∷ frames) buffer s h =
      flush-all buffer s
      ∙ ap (λ ls. send_all parse_json text_of transform ls s) (whole_buffer buffer h)
  stream-all (trailers ∷ frames) buffer s h = stream-all frames buffer s h
  stream-all (content chunk ∷ frames) buffer s h =
      let d = split_lines (buffer ++ chunk) in
      let next = all_lines (d.1 ++ readable frames) in
      let cut : all_lines (buffer ++ (chunk ++ readable frames)) ≡ d.0 ++ next =
        ap all_lines (sym (append_assoc buffer chunk (readable frames)))
        ∙ all_lines-append (buffer ++ chunk) (readable frames) in
      rw (cut, drain_lines-split (length (buffer ++ chunk)) (buffer ++ chunk) (omega arith))
        (stream-all frames d.1 (send_all parse_json text_of transform d.0 s)
            (split_lines-rest (buffer ++ chunk))
          ∙ sym (send_all-append d.0 next s))

  send_all-sent :
      (ls : List Text) (s : StreamState)
      → (send_all parse_json text_of transform ls s).sent
        ≡ s.sent ++ map (λ l. (transform (text_of l)).line) ls
  unfolding send_all send_line
  send_all-sent [] s = sym (append_nil s.sent)
  send_all-sent (l ∷ ls) s =
      let r = transform (text_of l) in
      let more = map (λ l. (transform (text_of l)).line) ls in
      send_all-sent ls (send_line parse_json text_of transform l s)
      ∙ ap (λ t. (t ++ r.line ∷ []) ++ more) (meter-sent parse_json (text_of l) s)
      ∙ append_assoc s.sent (r.line ∷ []) more

  send_all-policy :
      (ls : List Text) (s : StreamState)
      → (send_all parse_json text_of transform ls s).acc_policy
        ≡ merge_all s.acc_policy (map (λ l. (transform (text_of l)).policy) ls)
  unfolding send_all send_line merge_all
  send_all-policy [] s = refl
  send_all-policy (l ∷ ls) s =
      send_all-policy ls (send_line parse_json text_of transform l s)
      ∙ ap
          (λ p.
            merge_all (merge_policy_outcomes p (transform (text_of l)).policy)
              (map (λ l. (transform (text_of l)).policy) ls))
          (meter-policy parse_json (text_of l) s)

  send_all-metered :
      (ls : List Text) (s : StreamState)
      → s.metered ≡ true
      → (send_all parse_json text_of transform ls s).llm_tokens ≡ s.llm_tokens
  unfolding send_all send_line
  send_all-metered [] s h = refl
  send_all-metered (l ∷ ls) s h =
      let e = meter-metered parse_json (text_of l) s h in
      send_all-metered ls (send_line parse_json text_of transform l s)
        (ap (λ (t : StreamState). t.metered) e ∙ h)
      ∙ ap (λ (t : StreamState). t.llm_tokens) e

  send_all-tokens :
      (ls : List Text) (s : StreamState)
      → s.metered ≡ false
      → (send_all parse_json text_of transform ls s).llm_tokens
        ≡ s.llm_tokens ++ first_some (map line_usage ls)
  unfolding send_all send_line
  send_all-tokens [] s h = sym (append_nil s.llm_tokens)
  send_all-tokens (l ∷ ls) s h = elim (Option-cases (line_usage l)) [
    | inl n ↦
        let e = meter-none parse_json (text_of l) s h n in
        send_all-tokens ls (send_line parse_json text_of transform l s)
          (ap (λ (t : StreamState). t.metered) e ∙ h)
        ∙ ap (λ (t : StreamState). t.llm_tokens ++ first_some (map line_usage ls)) e
        ∙ ap (λ o. s.llm_tokens ++ first_some (o ∷ map line_usage ls)) (sym n)
    | inr (u, n) ↦
        let e = meter-some parse_json (text_of l) s u h n in
        send_all-metered ls (send_line parse_json text_of transform l s)
          (ap (λ (t : StreamState). t.metered) e)
        ∙ ap (λ (t : StreamState). t.llm_tokens) e
        ∙ ap (λ o. s.llm_tokens ++ first_some (o ∷ map line_usage ls)) (sym n)
  ]

  -- Whatever frames come, what is sent are the transformed lines of the text that is read before the
  -- first error, in their order, also where a frame ends inside of a line; the outcome is the merge of
  -- those of all the lines; and the usage is metered once, by the first line that names one.
  pub redact_sse_stream-lines :
      (frames : List Frame)
      → let s = redact_sse_stream parse_json text_of transform frames [] stream_start in
        let ls = all_lines (readable frames) in
        (s.sent ≡ map (λ l. (transform (text_of l)).line) ls)
        × (s.acc_policy ≡ merge_all builtin_allow (map (λ l. (transform (text_of l)).policy) ls))
        × (s.llm_tokens ≡ first_some (map line_usage ls))
  redact_sse_stream-lines frames =
      let ls = all_lines (readable frames) in
      rw (stream-all frames [] stream_start nothing) (
        send_all-sent ls stream_start,
        send_all-policy ls stream_start,
        send_all-tokens ls stream_start refl,
      )
