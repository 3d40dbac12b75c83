-- ===== src/Proxy/Sse/Chunks.antt =====
-- src/proxy.rs: the stream does not depend on where its chunks end.
use ctxward.Prelude.{
  ◌≡◌, refl, ap, sym, ◌∙◌, some, List, [], ◌∷◌, ◌++◌, Text, length, append_nil, append_assoc, map,
  arith,
}
use ctxward.Core.Policy.{PolicyOutcome}
use ctxward.Proxy.Outcome.{merge_policy_outcomes, merge_all}
use ctxward.Proxy.Sse.{SseTransformResult, send_lines, send_rest, sse_stream}
use ctxward.Proxy.Sse.Lines.{
  Split, split_lines, prepend, split_lines-append, split_lines-rest, drain_lines-split,
}

abbrev pub concat : List Text → Text
concat [] = []
concat (c ∷ cs) = c ++ concat cs

-- The rest after the last newline is a line too, if it is not empty.
abbrev pub with_rest : Split → List Text
with_rest (ls, []) = ls
with_rest (ls, b ∷ rest) = ls ++ (b ∷ rest) ∷ []

-- The lines of a text.
abbrev pub all_lines : Text → List Text
all_lines s = with_rest (split_lines s)

with_rest-prepend : (ls : List Text) (p : Split) → with_rest (prepend ls p) ≡ ls ++ with_rest p
with_rest-prepend ls (ms, []) = refl
with_rest-prepend ls (ms, b ∷ rest) = append_assoc ls ms ((b ∷ rest) ∷ [])

-- The lines of a buffer and what follows it.
pub all_lines-append :
    (s t : Text) → all_lines (s ++ t) ≡ (split_lines s).0 ++ all_lines ((split_lines s).1 ++ t)
all_lines-append s t =
    ap with_rest (split_lines-append s t)
    ∙ with_rest-prepend (split_lines s).0 (split_lines ((split_lines s).1 ++ t))

pub nothing : split_lines [] ≡ ([], [])
unfolding split_lines
nothing = refl

module _ (transform : Text → SseTransformResult) where
  -- What is sent for a list of lines, and what is decided in the end.
  abbrev pub sent_for : PolicyOutcome → List Text → List Text × PolicyOutcome
  sent_for policy ls =
      (map (λ l. (transform l).line) ls, merge_all policy (map (λ l. (transform l).policy) ls))

  send_lines-all :
      (policy : PolicyOutcome) (ls : List Text)
      → send_lines transform policy ls ≡ sent_for policy ls
  unfolding send_lines merge_all
  send_lines-all policy [] = refl
  send_lines-all policy (l ∷ ls) =
      ap (λ (p : List Text × PolicyOutcome). ((transform l).line ∷ p.0, p.1))
        (send_lines-all (merge_policy_outcomes policy (transform l).policy) ls)

  -- A list of lines may be sent in two parts.
  sent_for-append :
      (policy : PolicyOutcome) (ls ms : List Text)
      → let first = sent_for policy ls in
        let second = sent_for first.1 ms in
        sent_for policy (ls ++ ms) ≡ (first.0 ++ second.0, second.1)
  unfolding merge_all
  sent_for-append policy [] ms = refl
  sent_for-append policy (l ∷ ls) ms =
      ap (λ (p : List Text × PolicyOutcome). ((transform l).line ∷ p.0, p.1))
        (sent_for-append (merge_policy_outcomes policy (transform l).policy) ls ms)

  send_rest-all :
      (policy : PolicyOutcome) (buffer : Text)
      → send_rest transform policy buffer ≡ sent_for policy (with_rest ([], buffer))
  unfolding send_rest merge_all send_lines
  send_rest-all policy [] = refl
  send_rest-all policy (b ∷ buffer) = refl

  stream-chunks :
      (policy : PolicyOutcome) (buffer : Text) (chunks : List Text)
      → split_lines buffer ≡ ([], buffer)
      → sse_stream transform policy buffer (map some chunks)
        ≡ sent_for policy (all_lines (buffer ++ concat chunks))
  unfolding sse_stream
  stream-chunks policy buffer [] h =
      send_rest-all policy buffer
      ∙ ap (λ s. sent_for policy (with_rest s)) (sym h ∙ ap split_lines (sym (append_nil buffer)))
  stream-chunks policy buffer (c ∷ cs) h =
      let d = split_lines (buffer ++ c) in
      let after = (sent_for policy d.0).1 in
      let next = all_lines (d.1 ++ concat cs) in
      let cut : all_lines (buffer ++ (c ++ concat cs)) ≡ d.0 ++ next =
        ap all_lines (sym (append_assoc buffer c (concat cs)))
        ∙ all_lines-append (buffer ++ c) (concat cs) in
      rw
        (
          cut,
          drain_lines-split (length (buffer ++ c)) (buffer ++ c) (omega arith),
          send_lines-all policy d.0,
          stream-chunks after d.1 cs (split_lines-rest (buffer ++ c)),
        )
        (sym (sent_for-append policy d.0 next))

  -- If every chunk can be read, the stream sends the transformed lines of the whole body, in their
  -- order, and decides by the merged outcomes of all of them: where the chunks end has no effect.
  pub sse_stream-lines :
      (policy : PolicyOutcome) (chunks : List Text)
      → sse_stream transform policy [] (map some chunks)
        ≡ sent_for policy (all_lines (concat chunks))
  sse_stream-lines policy chunks = stream-chunks policy [] chunks nothing
