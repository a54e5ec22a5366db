-- ===== src/Daemon/Client/Chunks.antt =====
-- The events of a stream do not depend on where its chunks are cut.
use mathlib.Core.List.{filter_map, filter_map-append, flatten}
use zapi_pwa.Base.{
  ℕ, ◌≡◌, refl, sym, ap, ◌∙◌, false, List, [], ◌∷◌, ◌++◌, append_assoc, append-nil, ◌==◌, Text,
  Bool-cases, inl, inr,
}
use zapi_pwa.Daemon.Client.{Setting, read_line, lines_of, push_line, read_lines, feed}

-- What `lines_of` gives for a text behind a text that was split already.
abbrev continue : List Text × Text → Text → List Text × Text
continue (lines, rest) t = let (more, last) = lines_of (rest ++ t) in (lines ++ more, last)

push-continue :
    (c : ℕ) (p : List Text × Text) (t : Text)
    → (c == 10) ≡ false
    → push_line c (continue p t) ≡ continue (push_line c p) t
unfolding lines_of
push-continue c ([], rest) t h = rw h
push-continue c (line ∷ lines, rest) t h = refl

lines_of-append : (s t : Text) → lines_of (s ++ t) ≡ continue (lines_of s) t
unfolding lines_of
lines_of-append [] t = refl
lines_of-append (c ∷ s) t = elim (Bool-cases (c == 10)) [
  | inl newline ↦ rw (newline, lines_of-append s t)
  | inr other ↦ rw other (rw (lines_of-append s t) (push-continue c (lines_of s) t other))
]

abbrev IsRest : Text → Type 0
IsRest s = lines_of s ≡ ([], s)

push-IsRest :
    (c : ℕ) (p : List Text × Text) → (c == 10) ≡ false → IsRest p.1 → IsRest (push_line c p).1
unfolding lines_of
push-IsRest c ([], rest) h k = rw h (rw k)
push-IsRest c (line ∷ lines, rest) h k = k

lines_of-IsRest : (s : Text) → IsRest (lines_of s).1
unfolding lines_of
lines_of-IsRest [] = refl
lines_of-IsRest (c ∷ s) = elim (Bool-cases (c == 10)) [
  | inl newline ↦ rw newline (lines_of-IsRest s)
  | inr other ↦ rw other (push-IsRest c (lines_of s) other (lines_of-IsRest s))
]

module _ (e : Setting) where
  read-append : (ls ms : List Text) → read_lines e (ls ++ ms) ≡ read_lines e ls ++ read_lines e ms
  unfolding read_lines
  read-append ls ms = filter_map-append (read_line e) ls ms

  feed-flatten :
      (buffer : Text) (chunks : List Text)
      → IsRest buffer
      → feed e buffer chunks ≡ read_lines e (lines_of (buffer ++ flatten chunks)).0
  unfolding feed flatten read_lines filter_map
  feed-flatten buffer [] h = rw (append-nil buffer, h) refl
  feed-flatten buffer (c ∷ cs) h =
      let (lines, rest) = lines_of (buffer ++ c) in
      ap (λ l. read_lines e lines ++ l) (feed-flatten rest cs (lines_of-IsRest (buffer ++ c)))
      ∙ sym (read-append lines (lines_of (rest ++ flatten cs)).0)
      ∙ sym (ap (λ p. read_lines e p.0) (lines_of-append (buffer ++ c) (flatten cs)))
      ∙ ap (λ t. read_lines e (lines_of t).0) (append_assoc buffer c (flatten cs))

  -- However the text of a stream is cut into chunks, the events are those of its complete lines.
  pub feed_chunks :
      (chunks : List Text) → feed e [] chunks ≡ read_lines e (lines_of (flatten chunks)).0
  unfolding lines_of
  feed_chunks chunks = feed-flatten [] chunks refl
