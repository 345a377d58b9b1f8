-- ===== src/LiveFeed/Chain.antt =====
-- A stream of events without a hole keeps the book in step with the exchange's.
use burst_resilient_feed_han.Base.{
  ℕ, ◌+◌, ◌^◌, ◌<◌, ◌≤◌, ◌≡◌, refl, sym, ap, subst, ◌∙◌, ◌⊎◌, inl, inr, true, false, none, List, [],
  ◌∷◌, ◌++◌, ◌==◌, ltb, leb, if◌then◌else◌, ◌&&◌, arith, Bool-cases,
}
use burst_resilient_feed_han.Base.Word.{inc64}
use burst_resilient_feed_han.Event.{MarketEvent}
use burst_resilient_feed_han.OrderBook.Types.{OrderBookConfig}
use burst_resilient_feed_han.OrderBook.Price
use burst_resilient_feed_han.OrderBook.Price.{normalise}
use burst_resilient_feed_han.OrderBook.Levels.Shown.{Depth, depth, observe-depth}
use burst_resilient_feed_han.LiveFeed.{
  L2Level, Snapshot, Session, seeking, streaming, start_session, skip, apply, resync, gap, judge,
  open_event, run,
}
use burst_resilient_feed_han.LiveFeed.Replay.{
  put_all, set_levels-depth, preload-depth, Diff, messages, IsNew, event_skipped, event_applied,
}

-- The events follow on each other from the number `k`, within 64 bits.
abbrev pub IsChain : ℕ → List Diff → Type 0
IsChain k [] = Unit {0}
IsChain k (d ∷ ds) = (d.first ≡ k) × (k ≤ d.last) × (d.last + 1 < 2 ^ 64) × IsChain (d.last + 1) ds

-- The number after the last event.
abbrev pub next_id : ℕ → List Diff → ℕ
next_id k [] = k
next_id k (d ∷ ds) = next_id (d.last + 1) ds

unfoldable pub stream : List Diff → List MarketEvent
stream [] = []
stream (d ∷ ds) = messages d ++ stream ds

-- The changes that a snapshot with the number `l` does not have.
unfoldable pub fresh : ℕ → List Diff → List L2Level
fresh l [] = []
fresh l (d ∷ ds) = (if ltb l d.last then d.levels else []) ++ fresh l ds

-- Before an event with the number `k`, when the snapshot has the number `l`.
pub record IsSynced (l k : ℕ) (c : Session) : Type 0 where
  pub based : c.last_id ≡ l
  pub placed :
      ((c.mode ≡ seeking) × (k ≤ l + 1)) ⊎ ((c.mode ≡ streaming) × (c.prev_u + 1 ≡ k) × (l + 1 < k))
  pub past : (c.have_event ≡ false) ⊎ (c.cur_U < k)
  pub no_gaps : c.gaps ≡ 0
  pub no_resyncs : c.resyncs ≡ 0

-- The session `d` comes from `c` by the changes `lvs`.
pub record Changed (lvs : List L2Level) (c d : Session) : Type 0 where
  pub levels : depth d.book ≡ put_all c.book.cfg lvs (depth c.book)
  pub cfg : d.book.cfg ≡ c.book.cfg

pub put_all-append :
    (c : OrderBookConfig) (xs ys : List L2Level) (m : Depth)
    → put_all c (xs ++ ys) m ≡ put_all c ys (put_all c xs m)
unfolding put_all
put_all-append c [] ys m = refl
put_all-append c (x ∷ xs) ys m = put_all-append c xs ys _

Changed-append :
    (xs ys : List L2Level) (c d e : Session)
    → Changed xs c d
    → Changed ys d e
    → Changed (xs ++ ys) c e
Changed-append xs ys c d e v w = record {
  levels =
      w.levels
      ∙ ap (λ (k : OrderBookConfig). put_all k ys (depth d.book)) v.cfg
      ∙ ap (put_all c.book.cfg ys) v.levels
      ∙ sym (put_all-append c.book.cfg xs ys (depth c.book));
  cfg = w.cfg ∙ v.cfg;
}

run-append :
    (fetch : ℕ → Snapshot) (xs ys : List MarketEvent) (c : Session)
    → run fetch (xs ++ ys) c ≡ run fetch ys (run fetch xs c)
unfolding run
run-append fetch [] ys c = refl
run-append fetch (x ∷ xs) ys c = run-append fetch xs ys _

pub open_event-Changed : (first : ℕ) (c : Session) → Changed [] c (open_event first c)
unfolding open_event put_all
open_event-Changed first c = elim (Bool-cases (c.have_event && c.cur_apply)) [
  | inl t ↦ let (d, k) = observe-depth c.book in record { levels = rw t d; cfg = rw t k }
  | inr f ↦ record { levels = rw f refl; cfg = rw f refl }
]

module _ (fetch : ℕ → Snapshot) (l k last : ℕ) (lvs : List L2Level) (c : Session)
    (v : IsSynced l k c) (small : l + 1 < 2 ^ 64) (ordered : k ≤ last)
    (within : last + 1 < 2 ^ 64) where
  abbrev event : Diff
  event = record { first = k; last = last; levels = lvs }

  is_new : IsNew k c
  is_new = elim v.past [ inl e ↦ ground (arith, e) | inr h ↦ ground (arith, h) ]

  abbrev opened : Session
  opened = open_event k c

  judge_seeking :
      c.mode ≡ seeking
      → judge k last opened ≡ (
          if ltb last (inc64 c.last_id)
          then skip
          else if leb k (inc64 c.last_id)
          then apply
          else resync)
  unfolding judge open_event
  judge_seeking e = rw (e, judge) refl

  judge_streaming :
      c.mode ≡ streaming
      → judge k last opened
        ≡ (if leb last c.prev_u then skip else if k == inc64 c.prev_u then apply else gap)
  unfolding judge open_event
  judge_streaming e = rw (e, judge) refl

  -- The event is one that the snapshot has, or it is the next one.
  judged :
      ((judge k last opened ≡ skip) × (last ≤ l) × (c.mode ≡ seeking))
      ⊎ ((judge k last opened ≡ apply) × (l < last))
  unfolding inc64
  judged = elim v.placed [
    | inl (e, h) ↦ elim (Bool-cases (leb last l)) [
      | inl t ↦ inl (judge_seeking e ∙ ground (arith, t, v.based), ground (arith, t), e)
      | inr f ↦ inr (judge_seeking e ∙ ground (arith, f, v.based), ground (arith, f))
    ]
    | inr (e, p, h) ↦ inr (judge_streaming e ∙ ground (arith, p), omega arith)
  ]

  event-run :
      let d = run fetch (messages event) c in
      IsSynced l (last + 1) d × Changed (if ltb l last then lvs else []) c d
  unfolding open_event
  event-run = elim judged [
    | inl (j, old, e) ↦
        let off : ltb l last ≡ false = ground (arith, old) in
        rw (event_skipped fetch k last c is_new lvs j, off)
          (
            record {
              based = v.based;
              placed = inl (e, omega arith);
              past = inr (omega arith);
              no_gaps = v.no_gaps;
              no_resyncs = v.no_resyncs;
            },
            open_event-Changed k c,
          )
    | inr (j, new) ↦
        let on : ltb l last ≡ true = ground (arith, new) in
        rw (event_applied fetch k last c is_new lvs j, on)
          (
            record {
              based = v.based;
              placed = inr (refl, refl, omega arith);
              past = inr (omega arith);
              no_gaps = v.no_gaps;
              no_resyncs = v.no_resyncs;
            },
            (let w = open_event-Changed k c in
                let (d, g) = set_levels-depth lvs opened.book in
                Changed-append [] lvs c opened _ w (record { levels = d; cfg = g })),
          )
  ]

run_chain :
    (fetch : ℕ → Snapshot) (l k : ℕ) (ds : List Diff) (c : Session)
    → IsSynced l k c
    → l + 1 < 2 ^ 64
    → IsChain k ds
    → let d = run fetch (stream ds) c in IsSynced l (next_id k ds) d × Changed (fresh l ds) c d
unfolding run stream fresh put_all
run_chain fetch l k [] c v small h = (v, record { levels = refl; cfg = refl })
run_chain fetch l k (d ∷ ds) c v small (e, ordered, within, h) =
    let (w, one) =
      subst
        (λ (i : ℕ).
          let x = run fetch (messages (record { first = i; last = d.last; levels = d.levels })) c in
          IsSynced l (d.last + 1) x × Changed (if ltb l d.last then d.levels else []) c x)
        (sym e) (event-run fetch l k d.last d.levels c v small ordered within) in
    let (z, rest) = run_chain fetch l (d.last + 1) ds _ w small h in
    rw (run-append fetch (messages d) (stream ds) c)
      (z, Changed-append (if ltb l d.last then d.levels else []) (fresh l ds) c _ _ one rest)

-- For a stream of events whose update ids follow on each other from a number `k` that the
-- snapshot's number reaches (`k ≤ L + 1`), below 2^64: whatever later snapshots would hold, the
-- session asks for none and counts no gap. Each level shows what the snapshot's levels and then the
-- changes of the events that are newer than the snapshot, in their order, leave there, a later
-- change replacing an earlier one; and the session is streaming exactly if such an event has come.
pub run_chain-depth :
    (fetch : ℕ → Snapshot) (bc : OrderBookConfig) (s0 : Snapshot) (k : ℕ) (ds : List Diff)
    → k ≤ s0.last_update_id + 1
    → s0.last_update_id + 1 < 2 ^ 64
    → IsChain k ds
    → let d = run fetch (stream ds) (start_session bc s0) in
      (depth d.book ≡ put_all (normalise bc) (s0.levels ++ fresh s0.last_update_id ds) (λ _. none))
      × (d.gaps ≡ 0)
      × (d.resyncs ≡ 0)
      × (d.mode ≡ (if ltb (s0.last_update_id + 1) (next_id k ds) then streaming else seeking))
unfolding start_session Price.init
run_chain-depth fetch bc s0 k ds h small chain =
    let (d0, c0) = preload-depth s0 (Price.init bc) in
    let begun : IsSynced s0.last_update_id k (start_session bc s0) = record {
      based = refl;
      placed = inl (refl, h);
      past = inl refl;
      no_gaps = refl;
      no_resyncs = refl;
    } in
    let (v, w) = run_chain fetch s0.last_update_id k ds (start_session bc s0) begun small chain in
    (
      w.levels
          ∙ ap
              (λ (c : OrderBookConfig).
                put_all c (fresh s0.last_update_id ds) (depth (start_session bc s0).book))
              c0
          ∙ ap (put_all (normalise bc) (fresh s0.last_update_id ds)) d0
          ∙ sym (put_all-append (normalise bc) s0.levels (fresh s0.last_update_id ds) (λ _. none)),
      v.no_gaps,
      v.no_resyncs,
      elim v.placed [
        | inl (e, near) ↦ e ∙ ground (arith, near)
        | inr (e, _, far) ↦ e ∙ ground (arith, far)
      ],
    )
