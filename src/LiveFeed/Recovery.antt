-- ===== src/LiveFeed/Recovery.antt =====
-- An event that does not follow on the one before: the session counts a gap and starts over from a
-- snapshot.
use burst_resilient_feed_han.Base.{
  ℕ, ◌+◌, ◌^◌, ◌<◌, ◌≤◌, ◌≡◌, ◌≢◌, refl, sym, ap, ◌∙◌, inl, inr, true, false, none, List, ◌∷◌, ◌++◌,
  map, if◌then◌else◌, arith, Bool-cases,
}
use burst_resilient_feed_han.Base.Word.{inc64}
use burst_resilient_feed_han.OrderBook.Types.{OrderBookConfig}
use burst_resilient_feed_han.OrderBook.Levels.{reset}
use burst_resilient_feed_han.OrderBook.Levels.Shown.{depth, reset-depth}
use burst_resilient_feed_han.LiveFeed.{
  L2Level, Snapshot, Session, seeking, streaming, preload, reload, gap, apply, judge, open_event,
  re_snapshot, enter_as, on_message, run,
}
use burst_resilient_feed_han.LiveFeed.Replay.{
  put_all, preload-depth, set_levels-depth, Diff, messages, level_message, IsNew, enter_new,
  event_applied,
}
use burst_resilient_feed_han.LiveFeed.Chain.{open_event-Changed, put_all-append}

-- What the session is after a snapshot was asked for.
record Reloaded (s2 : Snapshot) (c d : Session) : Type 0 where
  levels : depth d.book ≡ (if s2.ok then put_all c.book.cfg s2.levels (λ _. none) else depth c.book)
  cfg : d.book.cfg ≡ c.book.cfg
  mode : d.mode ≡ (if s2.ok then seeking else c.mode)
  last_id : d.last_id ≡ (if s2.ok then s2.last_update_id else c.last_id)
  closed : d.have_event ≡ false
  gaps : d.gaps ≡ c.gaps
  resyncs : d.resyncs ≡ c.resyncs

reload-Reloaded : (s2 : Snapshot) (c : Session) → Reloaded s2 c (reload s2 c)
unfolding reload preload
reload-Reloaded s2 c = elim (Bool-cases s2.ok) [
  | inl t ↦
      let (r, k) = reset-depth c.book in
      let (p, q) = preload-depth s2 (reset c.book) in
      rw (t, reload)
        (record {
          levels =
              p
              ∙ ap (λ (x : OrderBookConfig). put_all x s2.levels (depth (reset c.book))) k
              ∙ ap (put_all c.book.cfg s2.levels) r;
          cfg = q ∙ k;
          mode = refl;
          last_id = refl;
          closed = refl;
          gaps = refl;
          resyncs = refl;
        })
  | inr f ↦
      rw (f, reload)
        (record {
          levels = refl;
          cfg = refl;
          mode = refl;
          last_id = refl;
          closed = refl;
          gaps = refl;
          resyncs = refl;
        })
]

module _ (fetch : ℕ → Snapshot) (first last : ℕ) (lv : L2Level) (c : Session) (new : IsNew first c)
    (live : c.mode ≡ streaming) (later : c.prev_u < last) (small : c.prev_u + 1 < 2 ^ 64)
    (apart : first ≢ c.prev_u + 1) where
  abbrev opened : Session
  opened = open_event first c

  -- The session that asks for a snapshot.
  abbrev asking : Session
  asking = record opened { gaps = inc64 c.gaps; resyncs = inc64 c.resyncs }

  judged_gap : judge first last opened ≡ gap
  unfolding judge open_event inc64
  judged_gap = rw (live, judge) (ground arith)

  first_message :
      on_message fetch (level_message first last lv) c ≡ reload (fetch (inc64 c.resyncs)) asking
  unfolding on_message enter_as re_snapshot open_event
  first_message = rw (enter_new fetch first last c new, judged_gap, on_message) refl

  -- When the session is streaming, below 2^64, and the first message of an event comes that is
  -- newer than the last event but does not follow on it: a gap and a request for a snapshot are
  -- counted, and no event is open. If the snapshot is there the book shows it and nothing else, and
  -- the session is seeking from the snapshot's number; if not, the levels, the mode and the number
  -- are as they were.
  pub on_message-gap :
      let s2 = fetch (inc64 c.resyncs) in
      let d = on_message fetch (level_message first last lv) c in
      (d.gaps ≡ inc64 c.gaps)
      × (d.resyncs ≡ inc64 c.resyncs)
      × (d.have_event ≡ false)
      × (depth d.book ≡ (if s2.ok then put_all c.book.cfg s2.levels (λ _. none) else depth c.book))
      × (d.mode ≡ (if s2.ok then seeking else streaming))
      × (d.last_id ≡ (if s2.ok then s2.last_update_id else c.last_id))
  unfolding open_event put_all
  on_message-gap =
      let s2 = fetch (inc64 c.resyncs) in
      let v = reload-Reloaded s2 asking in
      let w = open_event-Changed first c in
      rw first_message (
        v.gaps,
        v.resyncs,
        v.closed,
        v.levels
            ∙ ap
                (λ (k : OrderBookConfig).
                  if s2.ok then put_all k s2.levels (λ _. none) else depth opened.book)
                w.cfg
            ∙ ap (λ m. if s2.ok then put_all c.book.cfg s2.levels (λ _. none) else m) w.levels,
        v.mode ∙ ap (λ m. if s2.ok then seeking else m) live,
        v.last_id,
      )

  module _ (lv' : L2Level) (lvs : List L2Level) where
    abbrev fetched : Snapshot
    fetched = fetch (inc64 c.resyncs)

    abbrev event : Diff
    event = record { first = first; last = last; levels = lv ∷ (lv' ∷ lvs) }

    -- The session that has loaded the snapshot takes what is left of the event for a new one.
    judged_next :
        (d : Session)
        → d.mode ≡ seeking
        → d.last_id ≡ fetched.last_update_id
        → fetched.last_update_id + 1 < 2 ^ 64
        → first ≤ fetched.last_update_id + 1
        → fetched.last_update_id < last
        → judge first last (open_event first d) ≡ apply
    unfolding judge open_event inc64
    judged_next d m l s h f = rw (m, judge) (ground (arith, l))

    rest_run :
        (d : Session)
        → IsNew first d
        → judge first last (open_event first d) ≡ apply
        → let e = run fetch (map (level_message first last) (lv' ∷ lvs)) d in
          (e.mode ≡ streaming)
          × (e.prev_u ≡ last)
          × (depth e.book ≡ put_all d.book.cfg (lv' ∷ lvs) (depth d.book))
    unfolding messages put_all
    rest_run d n j =
        let (m, _) = set_levels-depth (lv' ∷ lvs) (open_event first d).book in
        let w = open_event-Changed first d in
        rw (event_applied fetch first last d n (lv' ∷ lvs) j) (
          refl,
          refl,
          m
              ∙ ap
                  (λ (k : OrderBookConfig). put_all k (lv' ∷ lvs) (depth (open_event first d).book))
                  w.cfg
              ∙ ap (put_all d.book.cfg (lv' ∷ lvs)) w.levels,
        )

    -- When the session is streaming, a new event of two levels or more is newer than the last one
    -- but does not follow on it, and the snapshot fetched then does not have the event yet but
    -- reaches its first number (`U ≤ L + 1 ≤ u`), with the numbers below 2^64: the session ends up
    -- with the snapshot and the levels of the event but for the first of them, and goes on
    -- streaming from the event's last number.
    pub run-gap_loses_level :
        fetched.ok ≡ true
        → fetched.last_update_id + 1 < 2 ^ 64
        → first ≤ fetched.last_update_id + 1
        → fetched.last_update_id < last
        → let d = run fetch (messages event) c in
          (d.mode ≡ streaming)
          × (d.prev_u ≡ last)
          × (depth d.book ≡ put_all c.book.cfg (fetched.levels ++ (lv' ∷ lvs)) (λ _. none))
    unfolding messages run open_event
    run-gap_loses_level good s h f =
        let d = reload fetched asking in
        let v = reload-Reloaded fetched asking in
        let w = open_event-Changed first c in
        let cfg : d.book.cfg ≡ c.book.cfg = v.cfg ∙ w.cfg in
        let mode : d.mode ≡ seeking = v.mode ∙ ap (λ t. if t then seeking else c.mode) good in
        let from : d.last_id ≡ fetched.last_update_id =
          v.last_id ∙ ap (λ t. if t then fetched.last_update_id else c.last_id) good in
        let levels : depth d.book ≡ put_all c.book.cfg fetched.levels (λ _. none) =
          v.levels
          ∙ ap
              (λ t.
                if t then put_all opened.book.cfg fetched.levels (λ _. none) else depth opened.book)
              good
          ∙ ap (λ (k : OrderBookConfig). put_all k fetched.levels (λ _. none)) w.cfg in
        let unseen : IsNew first d = ground (arith, v.closed) in
        let (e, p, x) = rest_run d unseen (judged_next d mode from s h f) in
        let same : run fetch (messages event) c
            ≡ run fetch (map (level_message first last) (lv' ∷ lvs)) d =
          ap (run fetch (map (level_message first last) (lv' ∷ lvs))) first_message in
        rw same (
          e,
          p,
          x
              ∙ ap (λ (k : OrderBookConfig). put_all k (lv' ∷ lvs) (depth d.book)) cfg
              ∙ ap (put_all c.book.cfg (lv' ∷ lvs)) levels
              ∙ sym (put_all-append c.book.cfg fetched.levels (lv' ∷ lvs) (λ _. none)),
        )
