-- ===== src/Broker/OffsetManager/Text/RoundTrip.antt =====
-- The lines that broker/src/offset_manager.rs writes are read back.
use Prim.Native.Char.{Char}
use Prim.Native.String.{[] as nil, ◌∷◌ as ◌∷∷◌}
use text.Mathlib.TextLemmas.{nil-append, cons-append, append_assoc as assoc}
use gaffa.Prelude.{ℕ, ◌^◌, ◌<◌, ◌<>◌, ◌≡◌, sym, ap, ◌∙◌, String, some, ◌∷◌, arith, inl, inr}
use gaffa.Prelude.Decimal.{show}
use gaffa.Broker.OffsetManager.Text.{colon, equals, newline, split_once, lines, parse_line, line_of}
use gaffa.Broker.OffsetManager.Text.Numbers.{
  Lacks, Lacks-append, Lacks-show, split_once-append, parse-show,
}

-- A topic's name without a character that the format uses: no ':', '=' or end of a line.
abbrev pub IsPlain : String → Type 0
IsPlain topic = Lacks 58 topic × Lacks 61 topic × Lacks 10 topic × Lacks 13 topic

in_front : (c : Char) (s : String) → (c ∷∷ nil) <> s ≡ c ∷∷ s
in_front c s = cons-append c nil s ∙ ap (λ t. c ∷∷ t) (nil-append s)

module _ (topic : String) (partition offset : ℕ) where
  abbrev key : String
  key = topic <> (colon ∷∷ show partition)

  -- A line without its end.
  abbrev pub line : String
  line = key <> (equals ∷∷ show offset)

  line_of-line : line_of topic partition offset ≡ line <> (newline ∷∷ nil)
  unfolding line_of
  line_of-line =
      let end = newline ∷∷ nil in
      let rest = equals ∷∷ (show offset <> end) in
      ap (λ t. topic <> t)
        (in_front colon (show partition <> ((equals ∷∷ nil) <> (show offset <> end)))
          ∙ ap (λ t. colon ∷∷ (show partition <> t)) (in_front equals (show offset <> end)))
      ∙ sym (
          assoc key (equals ∷∷ show offset) end
          ∙ ap (λ t. key <> t) (cons-append equals (show offset) end)
          ∙ assoc topic (colon ∷∷ show partition) rest
          ∙ ap (λ t. topic <> t) (cons-append colon (show partition) rest))

  pub parse_line-line :
      IsPlain topic
      → partition < 2 ^ 32
      → offset < 2 ^ 64
      → parse_line line ≡ some (topic, partition, offset)
  unfolding parse_line
  parse_line-line plain p o =
      let outer : split_once equals line ≡ some (key, show offset) =
        split_once-append equals key (show offset) (
          Lacks-append 61 topic (colon ∷∷ show partition) plain.1
            (ground arith, Lacks-show 61 partition (inr (omega arith)))) in
      let inner : split_once colon key ≡ some (topic, show partition) =
        split_once-append colon topic (show partition) plain.0 in
      rw (parse_line, outer, inner, parse-show (2 ^ 32) partition p, parse-show (2 ^ 64) offset o)

  Lacks-line : (k : ℕ) → k < 48 → Lacks k topic → Lacks k line
  Lacks-line k h l =
      Lacks-append k key (equals ∷∷ show offset)
        (Lacks-append k topic (colon ∷∷ show partition) l
          (ground arith, Lacks-show k partition (inl h)))
        (ground arith, Lacks-show k offset (inl h))

lines-append :
    (s rest : String) → Lacks 10 s → Lacks 13 s → lines (s <> (newline ∷∷ rest)) ≡ s ∷ lines rest
unfolding lines
lines-append nil rest n r = ap lines (nil-append (newline ∷∷ rest))
lines-append (c ∷∷ s) rest n r =
    ap lines (cons-append c s (newline ∷∷ rest)) ∙ rw (lines, n.0, r.0, lines-append s rest n.1 r.1)

-- The text of a line in front of others is read as that line and the others.
pub lines-line_of :
    (topic : String) (partition offset : ℕ) (rest : String)
    → IsPlain topic
    → lines (line_of topic partition offset <> rest) ≡ line topic partition offset ∷ lines rest
lines-line_of topic partition offset rest plain =
    ap (λ t. lines (t <> rest)) (line_of-line topic partition offset)
    ∙ ap lines (
        assoc (line topic partition offset) (newline ∷∷ nil) rest
        ∙ ap (λ t. line topic partition offset <> t) (in_front newline rest))
    ∙ lines-append (line topic partition offset) rest
        (Lacks-line topic partition offset 10 (omega arith) plain.2)
        (Lacks-line topic partition offset 13 (omega arith) plain.3)
