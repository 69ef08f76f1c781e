-- ===== src/Process/Lines.antt =====
-- The lines of a worker's output that reach the log.
use mathlib.Core.List.{append_assoc, append-nil}
use vyx.Base.{
  ℕ, ◌≡◌, ◌≢◌, refl, sym, ap, ◌∙◌, arith, false, List, [], ◌∷◌, ◌++◌, ◌==◌, Text, Bool-cases, inl,
  inr,
}
use vyx.Route.{split, onto_head, non_empty}
use vyx.Route.Split.{Lacks}
use vyx.Process.{emit, process_from, process_chunk, pipe_log}

unfoldable pub concat : List Text → Text
concat [] = []
concat (t ∷ ts) = t ++ concat ts

-- All the lines of a text, where one has begun.
abbrev pub lines_from : Text → Text → List Text
lines_from line s = (process_from line s).0 ++ emit (process_from line s).1 []

emit-append : (line : Text) (xs ys : List Text) → emit line (xs ++ ys) ≡ emit line xs ++ ys
emit-append [] xs ys = refl
emit-append (b ∷ l) xs ys = refl

-- A text in two parts gives the lines of the first, and then those of the rest of its last line
-- with the second.
process_from-append :
    (line s t : Text)
    → lines_from line (s ++ t) ≡ (process_from line s).0 ++ lines_from (process_from line s).1 t
unfolding process_from
process_from-append line [] t = refl
process_from-append line (b ∷ s) t = elim (Bool-cases (b == 10)) [
  | inl e ↦
      rw (process_from, e)
        (sym (emit-append line (process_from [] (s ++ t)).0 (emit (process_from [] (s ++ t)).1 []))
          ∙ ap (emit line) (process_from-append [] s t)
          ∙ emit-append line (process_from [] s).0 (lines_from (process_from [] s).1 t))
  | inr e ↦ rw (process_from, e) (process_from-append (line ++ b ∷ []) s t)
]

-- Bytes without a line feed only lengthen the line.
process_from_line :
    (line s t : Text) → Lacks 10 s → process_from line (s ++ t) ≡ process_from (line ++ s) t
unfolding process_from
process_from_line line [] t h = ap (λ l. process_from l t) (sym (append-nil line))
process_from_line line (b ∷ s) t h =
    let e : (b == 10) ≡ false = ground (arith, h.0) in
    rw (process_from, e)
      (process_from_line (line ++ b ∷ []) s t h.1
        ∙ ap (λ l. process_from l t) (append_assoc line (b ∷ []) s))

Lacks-snoc : (b : ℕ) (s : Text) → b ≢ 10 → Lacks 10 s → Lacks 10 (s ++ b ∷ [])
Lacks-snoc b [] n h = (n, tt)
Lacks-snoc b (c ∷ s) n h = (h.0, Lacks-snoc b s n h.1)

process_from-Lacks : (line s : Text) → Lacks 10 line → Lacks 10 (process_from line s).1
unfolding process_from
process_from-Lacks line [] h = h
process_from-Lacks line (b ∷ s) h = elim (Bool-cases (b == 10)) [
  | inl e ↦ rw (process_from, e) (process_from-Lacks [] s tt)
  | inr e ↦
      rw (process_from, e)
        (process_from-Lacks (line ++ b ∷ []) s (Lacks-snoc b line (ground arith) h))
]

pipe_log_from :
    (partial : Text) (chunks : List Text)
    → Lacks 10 partial
    → pipe_log partial chunks ≡ lines_from partial (concat chunks)
unfolding pipe_log process_chunk concat process_from
pipe_log_from partial [] h = refl
pipe_log_from partial (chunk ∷ chunks) h =
    let rest = (process_from partial chunk).1 in
    rw (pipe_log, process_chunk, process_from_line [] partial chunk h)
      (ap (λ ls. (process_from partial chunk).0 ++ ls)
          (pipe_log_from rest chunks (process_from-Lacks partial chunk h))
        ∙ sym (process_from-append partial chunk (concat chunks)))

abbrev onto_first : Text → List Text → List Text
onto_first line [] = line ∷ []
onto_first line (w ∷ ws) = (line ++ w) ∷ ws

onto_first-onto_head :
    (line : Text) (b : ℕ) (ws : List Text)
    → onto_first line (onto_head b ws) ≡ onto_first (line ++ b ∷ []) ws
onto_first-onto_head line b [] = refl
onto_first-onto_head line b (w ∷ ws) = ap (λ l. l ∷ ws) (sym (append_assoc line (b ∷ []) w))

emit-non_empty : (line : Text) (ws : List Text) → emit line (non_empty ws) ≡ non_empty (line ∷ ws)
unfolding non_empty
emit-non_empty [] ws = refl
emit-non_empty (b ∷ l) ws = refl

onto_first_head : (b : ℕ) (ws : List Text) → onto_first [] (onto_head b ws) ≡ onto_head b ws
onto_first_head b [] = refl
onto_first_head b (w ∷ ws) = refl

onto_first_nothing : (s : Text) → onto_first [] (split 10 s) ≡ split 10 s
unfolding split
onto_first_nothing [] = refl
onto_first_nothing (b ∷ s) = elim (Bool-cases (b == 10)) [
  | inl e ↦ rw (split, e) refl
  | inr e ↦ rw (split, e) (onto_first_head b (split 10 s))
]

lines_from-split : (line s : Text) → lines_from line s ≡ non_empty (onto_first line (split 10 s))
unfolding process_from split non_empty
lines_from-split line [] =
    emit-non_empty line [] ∙ ap (λ l. non_empty (l ∷ [])) (sym (append-nil line))
lines_from-split line (b ∷ s) = elim (Bool-cases (b == 10)) [
  | inl e ↦
      rw (process_from, split, e)
        (sym (emit-append line (process_from [] s).0 (emit (process_from [] s).1 []))
          ∙ ap (emit line) (lines_from-split [] s ∙ ap non_empty (onto_first_nothing s))
          ∙ emit-non_empty line (split 10 s)
          ∙ ap (λ l. non_empty (l ∷ split 10 s)) (sym (append-nil line)))
  | inr e ↦
      rw (process_from, split, e)
        (lines_from-split (line ++ b ∷ []) s
          ∙ ap non_empty (sym (onto_first-onto_head line b (split 10 s))))
]

-- However the reads cut the output of a worker into chunks, the log gets the lines of the whole
-- output that are not empty, in order, with a last line that no line feed ends.
pub pipe_log-split :
    (chunks : List Text) → pipe_log [] chunks ≡ non_empty (split 10 (concat chunks))
pipe_log-split chunks =
    pipe_log_from [] chunks tt
    ∙ lines_from-split [] (concat chunks)
    ∙ ap non_empty (onto_first_nothing (concat chunks))
