-- ===== src/System/Offsets.antt =====
-- The offsets that a member of a group commits, the next member starts from.
use gaffa.Prelude.{
  ℕ, ◌+◌, ◌≡◌, refl, ap, ◌∙◌, String, false, Option, none, some, List, [], ◌∷◌, Bool-cases, inl,
  inr,
}
use gaffa.Prelude.Maps.{find, put, Unique, str-Lawful, find-put_same, find-put_other}
use gaffa.Common.Error.{Result, ok, panic}
use gaffa.Common.Action.{◌>>=◌, >>=-eq-ok, for_each}
use gaffa.Protocol.Messages.{Request, Response}
use gaffa.Storage.Compression.{Codecs}
use gaffa.Broker.OffsetManager as Manager
use gaffa.Broker.OffsetManager.{OffsetManager, OffsetKey, Write, offset_key_eq}
use gaffa.Broker.OffsetManager.Loading.{offset_key-Lawful}
use gaffa.Broker.Server.{Server, World, process_request, on_commit_offset, on_fetch_offset}
use gaffa.Client.Connection.{Session, ask, ask-eq-ok}
use gaffa.Client.Consumer.{Consumer, Key, key_eq}
use gaffa.Client.Consumer.Counting.{key-Lawful}
use gaffa.Client.Consumer.Groups.{
  commit_one, commit_offsets, fetch_committed_offset, acknowledged, committed, required,
}
use gaffa.System.{Running, serve}
use gaffa.System.Delivery.{next, served}

abbrev key_in : String → Key → OffsetKey
key_in g k = (g, k.0, k.1)

-- The offsets of the server after those of a consumer have been committed to a group.
commits : String → List (Key × ℕ) → OffsetManager → OffsetManager
commits g [] m = m
commits g (e ∷ es) m = commits g es (Manager.commit_offset m Write.written g e.0.0 e.0.1 e.1).0

abbrev or_else : Option ℕ → Option ℕ → Option ℕ
or_else none o = o
or_else (some n) o = some n

find-commits :
    (g : String) (k : Key) (es : List (Key × ℕ)) (m : OffsetManager)
    → Unique key_eq es
    → find offset_key_eq (key_in g k) (commits g es m).offsets
      ≡ or_else (find key_eq k es) (find offset_key_eq (key_in g k) m.offsets)
unfolding commits Manager.commit_offset Manager.persist_group
find-commits g k [] m u = refl
find-commits g k (e ∷ es) m u =
    find-commits g k es (Manager.commit_offset m Write.written g e.0.0 e.0.1 e.1).0 u.1
    ∙ elim (Bool-cases (key_eq k e.0)) [
      | inl a ↦
          let same : k ≡ e.0 = key-Lawful.sound k e.0 a in
          let gone : find key_eq k es ≡ none = ap (λ x. find key_eq x es) same ∙ u.0 in
          let new : find offset_key_eq (key_in g k) (put offset_key_eq (key_in g e.0) e.1 m.offsets)
              ≡ some e.1 =
            ap
              (λ x.
                find offset_key_eq (key_in g x) (put offset_key_eq (key_in g e.0) e.1 m.offsets))
              same
            ∙ find-put_same offset_key_eq offset_key-Lawful (key_in g e.0) e.1 m.offsets in
          rw (gone, new, a)
      | inr a ↦
          let apart : offset_key_eq (key_in g k) (key_in g e.0) ≡ false =
            rw (str-Lawful.complete g) a in
          let old : find offset_key_eq (key_in g k) (put offset_key_eq (key_in g e.0) e.1 m.offsets)
              ≡ find offset_key_eq (key_in g k) m.offsets =
            find-put_other offset_key_eq offset_key-Lawful (key_in g e.0) (key_in g k) e.1 m.offsets
              apart in
          rw (old, a)
    ]

module _ (lib : Codecs) (worlds : ℕ → World)
    (written : (n : ℕ) → (worlds n).write ≡ Write.written) where
  -- The server once an offset has been committed.
  abbrev stored : Server → String → Key × ℕ → Server
  stored s g e = record s {
    offset_manager = (Manager.commit_offset s.offset_manager Write.written g e.0.0 e.0.1 e.1).0;
  }

  commit_kept :
      (m : OffsetManager) (n : ℕ) (g : String) (e : Key × ℕ)
      → Manager.commit_offset m (worlds n).write g e.0.0 e.0.1 e.1
        ≡ ((Manager.commit_offset m Write.written g e.0.0 e.0.1 e.1).0, ok tt)
  unfolding Manager.commit_offset Manager.persist_group
  commit_kept m n g e = ap (λ w. Manager.commit_offset m w g e.0.0 e.0.1 e.1) (written n)

  commit_processed :
      (r : Running) (g : String) (e : Key × ℕ)
      → process_request lib (worlds r.served) r.server (Request.commit_offset g e.0.0 e.0.1 e.1)
        ≡ (stored r.server g e, some (Response.commit_offset_success g e.0.0 e.0.1 e.1))
  unfolding process_request on_commit_offset
  commit_processed r g e =
      let m = r.server.offset_manager in
      let kept = commit_kept m r.served g e in rw (on_commit_offset, kept, ap (λ x. x.0) kept)

  one-eq-ok :
      (c : Consumer) (r : Running) (g : String) (e : Key × ℕ)
      → commit_one (serve lib worlds) g e (record { client = c; world = r })
        ≡ (record { client = c; world = next lib worlds r (stored r.server g e) }, ok tt)
  unfolding commit_one
  one-eq-ok c r g e =
      let request = Request.commit_offset g e.0.0 e.0.1 e.1 in
      let response = Response.commit_offset_success g e.0.0 e.0.1 e.1 in
      let r' = next lib worlds r (stored r.server g e) in
      >>=-eq-ok (ask (serve lib worlds) request) acknowledged (record { client = c; world = r })
        (record { client = c; world = r' }) response
        (ask-eq-ok (serve lib worlds) request c r r' response
          (served lib worlds r request (stored r.server g e) response (commit_processed r g e)))

  all-eq-ok :
      (c : Consumer) (g : String) (es : List (Key × ℕ)) (r : Running)
      → (r' : Running) × (for_each es
            (commit_one (serve lib worlds) g)
            (record { client = c; world = r })
          ≡ (record { client = c; world = r' }, ok tt))
        × (r'.server.offset_manager ≡ commits g es r.server.offset_manager)
  unfolding commits
  all-eq-ok c g [] r = (r, refl, refl)
  all-eq-ok c g (e ∷ es) r =
      let after = next lib worlds r (stored r.server g e) in
      let (r', run, m) = all-eq-ok c g es after in
      (
        r',
        >>=-eq-ok (commit_one (serve lib worlds) g e)
              (λ t. for_each es (commit_one (serve lib worlds) g))
              (record { client = c; world = r }) (record { client = c; world = after }) tt
              (one-eq-ok c r g e)
            ∙ run,
        m,
      )

module _ (lib : Codecs) (worlds : ℕ → World) where
  fetch_processed :
      (r : Running) (g : String) (k : Key) (o : ℕ)
      → find offset_key_eq (key_in g k) r.server.offset_manager.offsets ≡ some o
      → process_request lib (worlds r.served) r.server (Request.fetch_offset g k.0 k.1)
        ≡ (r.server, some (Response.fetch_offset_success g k.0 k.1 o))
  unfolding process_request on_fetch_offset Manager.fetch_offset
  fetch_processed r g k o h = rw (on_fetch_offset, h)

  committed-eq-ok :
      (d : Consumer) (r : Running) (g : String) (k : Key) (o : ℕ)
      → d.group_id ≡ some g
      → find offset_key_eq (key_in g k) r.server.offset_manager.offsets ≡ some o
      → fetch_committed_offset (serve lib worlds) k.0 k.1 (record { client = d; world = r })
        ≡ (record { client = d; world = next lib worlds r r.server }, ok o)
  unfolding fetch_committed_offset
  committed-eq-ok d r g k o member h =
      let request = Request.fetch_offset g k.0 k.1 in
      let response = Response.fetch_offset_success g k.0 k.1 o in
      let r' = next lib worlds r r.server in
      ap by_group member
      ∙ >>=-eq-ok (ask (serve lib worlds) request) committed (record { client = d; world = r })
          (record { client = d; world = r' }) response
          (ask-eq-ok (serve lib worlds) request d r r' response
            (served lib worlds r request r.server response (fetch_processed r g k o h)))
    where
      by_group : Option String → Session Consumer Running × Result ℕ
      by_group none = (record { client = d; world = r }, panic)
      by_group (some name) =
          (ask (serve lib worlds) (Request.fetch_offset name k.0 k.1) >>= committed)
            (record { client = d; world = r })

  -- `commit_offsets` of a consumer in a group succeeds on a server that can write its files, and
  -- each offset that the consumer has is then what `fetch_committed_offset` gives any member of the
  -- group for that partition; neither consumer is changed. The consumer's map has each key once.
  pub commit_offsets-fetch_committed_offset :
      (c d : Consumer) (r : Running) (g : String) (k : Key) (o : ℕ)
      → ((n : ℕ) → (worlds n).write ≡ Write.written)
      → c.group_id ≡ some g
      → d.group_id ≡ some g
      → Unique key_eq c.offsets
      → find key_eq k c.offsets ≡ some o
      → (r' : Running) × (commit_offsets (serve lib worlds) (record { client = c; world = r })
          ≡ (record { client = c; world = r' }, ok tt))
        × (fetch_committed_offset (serve lib worlds) k.0 k.1 (record { client = d; world = r' })
            ≡ (record { client = d; world = record r' { served = r'.served + 1 } }, ok o))
  unfolding commit_offsets
  commit_offsets-fetch_committed_offset c d r g k o written member other unique h =
      let (r', run, m) = all-eq-ok lib worlds written c g c.offsets r in
      let stored_at : find offset_key_eq (key_in g k) r'.server.offset_manager.offsets ≡ some o =
        ap (λ x. find offset_key_eq (key_in g k) x.offsets) m
        ∙ find-commits g k c.offsets r.server.offset_manager unique
        ∙ ap (λ x. or_else x (find offset_key_eq (key_in g k) r.server.offset_manager.offsets)) h in
      (r', ap by_group member ∙ run, committed-eq-ok d r' g k o other stored_at)
    where
      by_group : Option String → Session Consumer Running × Result (Unit {0})
      by_group x =
          (required x "Not in a consumer group" >>= λ name.
          for_each c.offsets (commit_one (serve lib worlds) name))
            (record { client = c; world = r })
