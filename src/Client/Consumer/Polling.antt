-- ===== src/Client/Consumer/Polling.antt =====
-- Polls of client/src/consumer.rs that read a log through.
use mathlib.Core.Path.{subst}
use gaffa.Prelude.{
  ℕ, zero, suc, ◌+◌, ◌*◌, ◌^◌, ◌<◌, ◌≤◌, ◌≡◌, refl, sym, ap, ◌∙◌, String, List, [], ◌∷◌, ◌++◌,
  arith, length, take, drop, drop-drop, length-take, length-drop, length-append,
}
use gaffa.Common.Error.{ok}
use gaffa.Common.Action.{Action, ◌>>=◌, ◌>>◌, >>=-eq-ok, done, modify}
use gaffa.Protocol.Messages.{Record, Request, Response}
use gaffa.Client.Connection.{Reply, Session, ask, ask-eq-ok, update_client}
use gaffa.Client.Consumer.{
  Consumer, Key, fetch, fetched, fetch_next, fetch_all, subscribed, poll, moved, offset_or_zero,
}
use gaffa.Client.Consumer.Counting.{
  CountsFrom, CountsFrom-drop, CountsFrom-take, take-append_take, moved_offset, moved_subscriptions,
}

module _ {W : Type 0} (exchange : W → Request → W × Reply) where
  -- So many polls, and what they have brought.
  unfoldable pub polls : ℕ → ℕ → Action (Session Consumer W) (List Record)
  polls zero max = done []
  polls (suc n) max = do records ← poll exchange max; rest ← polls n max; done (records ++ rest)

-- The other end has a log, and answers every fetch from it at an offset up to its end with the
-- records there, up to the maximum.
pub record Serves {W : Type 0} (exchange : W → Request → W × Reply) (topic : String) (i max : ℕ)
    (log : List Record) : Type 1 where
  pub Ready : W → Type 0
  pub answer :
      (w : W) (offset : ℕ)
      → Ready w
      → offset ≤ length log
      → (w' : W) × Ready w'
        × (exchange w (Request.fetch topic i offset max)
            ≡ (w', Reply.answered (Response.fetch_success topic i (take max (drop offset log)))))

module _ {W : Type 0} (exchange : W → Request → W × Reply) (topic : String) (i max : ℕ)
    (log : List Record) (serves : Serves exchange topic i max log) where
  abbrev own : Key
  own = (topic, i)

  module _ (c : Consumer) (w w' : W) (records : List Record)
      (e : exchange w (Request.fetch topic i (offset_or_zero c own) max)
        ≡ (w', Reply.answered (Response.fetch_success topic i records))) where
    abbrev before : Session Consumer W
    before = record { client = c; world = w }

    abbrev fetched_by : Session Consumer W
    fetched_by = record { client = c; world = w' }

    abbrev behind : Session Consumer W
    behind = record { client = moved own records c; world = w' }

    fetch-eq-ok :
        fetch exchange topic i (offset_or_zero c own) max before ≡ (fetched_by, ok records)
    unfolding fetch
    fetch-eq-ok =
        >>=-eq-ok (ask exchange (Request.fetch topic i (offset_or_zero c own) max)) fetched before
          fetched_by (Response.fetch_success topic i records)
          (ask-eq-ok exchange (Request.fetch topic i (offset_or_zero c own) max) c w w'
            (Response.fetch_success topic i records) e)

    next-eq-ok : fetch_next exchange max own before ≡ (behind, ok records)
    unfolding fetch_next
    next-eq-ok =
        >>=-eq-ok (fetch exchange topic i (offset_or_zero c own) max)
          (λ rs. modify (update_client (moved own rs)) >> done rs) before fetched_by records
          fetch-eq-ok

    -- One poll of a consumer that is subscribed to the partition alone.
    poll-eq-ok :
        c.subscriptions ≡ (topic, i ∷ []) ∷ [] → poll exchange max before ≡ (behind, ok records)
    unfolding poll fetch_all subscribed
    poll-eq-ok h =
        ap (λ subs. fetch_all exchange max (subscribed exchange subs) [] before) h
        ∙ >>=-eq-ok (fetch_next exchange max own) (λ rs. done rs) before behind records next-eq-ok

  fits : (o : ℕ) → o ≤ length log → o + length (take max (drop o log)) ≤ length log
  fits o h = omega (arith, length-take max (drop o log), length-drop o log)

  counted : (o : ℕ) → CountsFrom 0 log → CountsFrom o (drop o log)
  counted o h =
      subst (λ m. CountsFrom m (drop o log)) {x = 0 + o} {y = o} (omega arith)
        (CountsFrom-drop o 0 log h)

  joined :
      (n o o' : ℕ)
      → o' ≡ o + length (take max (drop o log))
      → take max (drop o log) ++ take (n * max) (drop o' log) ≡ take (suc n * max) (drop o log)
  joined n o o' e =
      ap (λ l. take max (drop o log) ++ take (n * max) l)
        (ap (λ m. drop m log) e ∙ sym (drop-drop (length (take max (drop o log))) o log))
      ∙ take-append_take max (n * max) (drop o log)
      ∙ ap (λ m. take m (drop o log)) {x = max + n * max} {y = suc n * max} (omega arith)

  -- What `n` polls bring, one after the other, is the log from the consumer's offset on, each record
  -- once and in order, as far as `n` times the maximum reaches, and the offset moves behind it.
  pub polls-log :
      (n : ℕ) (c : Consumer) (w : W)
      → c.subscriptions ≡ (topic, i ∷ []) ∷ []
      → serves.Ready w
      → CountsFrom 0 log
      → offset_or_zero c own ≤ length log
      → length log < 2 ^ 64
      → (c' : Consumer) × (w' : W) × (polls exchange n max (record { client = c; world = w }) ≡ (
        record { client = c'; world = w' },
        ok (take (n * max) (drop (offset_or_zero c own) log)),
      ))
        × (offset_or_zero c' own
            ≡ offset_or_zero c own + length (take (n * max) (drop (offset_or_zero c own) log)))
        × serves.Ready w'
  unfolding polls
  polls-log zero c w h ready counts low small =
      let X = drop (offset_or_zero c own) log in
      let none_yet : take (0 * max) X ≡ [] =
        ap (λ m. take m X) {x = 0 * max} {y = 0} (omega arith) in
      (
        c,
        w,
        ap (λ l. (record { client = c; world = w }, ok l)) (sym none_yet),
        omega (arith, ap length none_yet),
        ready,
      )
  polls-log (suc n) c w h ready counts low small =
      let o = offset_or_zero c own in
      let records = take max (drop o log) in
      let d = moved own records c in
      let (w', ready', e) = serves.answer w o ready low in
      let room : o + length records ≤ length log = fits o low in
      let o' : offset_or_zero d own ≡ o + length records =
        moved_offset own c o records refl (CountsFrom-take max o (drop o log) (counted o counts))
          (omega arith) in
      let (c'', w'', run, at, ready'') =
        polls-log n d w' (moved_subscriptions own c records ∙ h) ready' counts
          (omega (arith, o', room)) small in
      let rest = take (n * max) (drop (offset_or_zero d own) log) in
      let all : records ++ rest ≡ take (suc n * max) (drop o log) =
        joined n o (offset_or_zero d own) o' in
      (
        c'',
        w'',
        >>=-eq-ok (poll exchange max) (λ rs. polls exchange n max >>= λ more. done (rs ++ more))
              (before c w w' records e) (behind c w w' records e) records
              (poll-eq-ok c w w' records e h)
            ∙ >>=-eq-ok (polls exchange n max) (λ more. done (records ++ more))
                (behind c w w' records e) (record { client = c''; world = w'' }) rest run
            ∙ ap (λ l. (record { client = c''; world = w'' }, ok l)) all,
        omega (arith, at, o', length-append records rest, ap length all),
        ready'',
      )
