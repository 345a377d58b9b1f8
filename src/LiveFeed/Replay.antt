-- ===== src/LiveFeed/Replay.antt =====
-- The messages of one event through the consumer, and the levels that they leave.
use burst_resilient_feed_han.Base.{
  ℕ, ◌≡◌, refl, ap, ◌∙◌, true, false, List, [], ◌∷◌, map, ◌==◌, ◌||◌, not, arith,
}
use burst_resilient_feed_han.Event
use burst_resilient_feed_han.Event.{MarketEvent, default_event}
use burst_resilient_feed_han.OrderBook.Types.{OrderBook, OrderBookConfig}
use burst_resilient_feed_han.OrderBook.Levels.{set_level}
use burst_resilient_feed_han.OrderBook.Levels.Shown.{
  Depth, depth, put, set_level-depth, cfg-set_level, observe-depth,
}
use burst_resilient_feed_han.LiveFeed.{
  L2Level, Snapshot, Session, streaming, set_levels, preload, skip, apply, judge, open_event,
  enter_as, enter, apply_level, on_message, run,
}
use burst_resilient_feed_han.LiveFeed.Decode.{header}

-- The changes, each of them after the ones before it.
unfoldable pub put_all : OrderBookConfig → List L2Level → Depth → Depth
put_all c [] m = m
put_all c (lv ∷ lvs) m = put_all c lvs (put c lv.side lv.price_ticks lv.size m)

pub set_levels-depth :
    (lvs : List L2Level) (b : OrderBook)
    → (depth (set_levels lvs b) ≡ put_all b.cfg lvs (depth b)) × ((set_levels lvs b).cfg ≡ b.cfg)
unfolding set_levels put_all
set_levels-depth [] b = (refl, refl)
set_levels-depth (lv ∷ lvs) b =
    let one = set_level-depth lv.side lv.price_ticks lv.size b in
    let kept = cfg-set_level lv.side lv.price_ticks lv.size b in
    let (rest, kept') = set_levels-depth lvs (set_level lv.side lv.price_ticks lv.size b) in
    (
      rest
          ∙ ap
              (λ (c : OrderBookConfig).
                put_all c lvs (depth (set_level lv.side lv.price_ticks lv.size b)))
              kept
          ∙ ap (put_all b.cfg lvs) one,
      kept' ∙ kept,
    )

pub preload-depth :
    (s : Snapshot) (b : OrderBook)
    → (depth (preload s b) ≡ put_all b.cfg s.levels (depth b)) × ((preload s b).cfg ≡ b.cfg)
unfolding preload
preload-depth s b =
    let (d, c) = set_levels-depth s.levels b in
    let (e, k) = observe-depth (set_levels s.levels b) in (e ∙ d, k ∙ c)

-- A decoded event of the stream: its update ids and the levels that it changes.
pub record Diff : Type 0 where
  pub first : ℕ
  pub last : ℕ
  pub levels : List L2Level

abbrev pub level_message : ℕ → ℕ → L2Level → MarketEvent
level_message first last lv = record default_event {
  type = Event.l2_set_level;
  side = lv.side;
  price_ticks = lv.price_ticks;
  size = lv.size;
  order_ref = first;
  match_number = last;
}

-- One message per level, or a header alone.
unfoldable pub messages : Diff → List MarketEvent
messages d = elim d.levels [
  | [] ↦ header d.first d.last ∷ []
  | lv ∷ lvs ↦ level_message d.first d.last lv ∷ map (level_message d.first d.last) lvs
]

-- The session has not seen this event yet.
abbrev pub IsNew : ℕ → Session → Type 0
IsNew first c = (not c.have_event || not (first == c.cur_U)) ≡ true

module _ (fetch : ℕ → Snapshot) (first last : ℕ) (c : Session) where
  -- Another message of the event that the session is in.
  enter_same :
      (not c.have_event || not (first == c.cur_U)) ≡ false → enter fetch first last c ≡ (true, c)
  unfolding enter
  enter_same e = rw (e, enter) refl

  pub enter_new :
      IsNew first c
      → enter fetch first last c
        ≡ enter_as fetch (judge first last (open_event first c)) last (open_event first c)
  unfolding enter
  enter_new e = rw (e, enter) refl

  message_applied :
      (lv : L2Level)
      → (not c.have_event || not (first == c.cur_U)) ≡ false
      → c.cur_apply ≡ true
      → on_message fetch (level_message first last lv) c
        ≡ record c { book = set_level lv.side lv.price_ticks lv.size c.book }
  unfolding on_message apply_level
  message_applied lv e a = rw (enter_same e, on_message) (ground (arith, a))

  message_skipped :
      (lv : L2Level)
      → (not c.have_event || not (first == c.cur_U)) ≡ false
      → c.cur_apply ≡ false
      → on_message fetch (level_message first last lv) c ≡ c
  unfolding on_message apply_level
  message_skipped lv e a = rw (enter_same e, on_message) (ground (arith, a))

module _ (fetch : ℕ → Snapshot) (first last : ℕ) where
  -- Once an event is entered, its other messages go to the book or are skipped, all alike.
  run_applied :
      (lvs : List L2Level) (c : Session)
      → (not c.have_event || not (first == c.cur_U)) ≡ false
      → c.cur_apply ≡ true
      → run fetch (map (level_message first last) lvs) c ≡ record c { book = set_levels lvs c.book }
  unfolding run set_levels
  run_applied [] c e a = refl
  run_applied (lv ∷ lvs) c e a =
      ap (run fetch (map (level_message first last) lvs))
        (message_applied fetch first last c lv e a)
      ∙ run_applied lvs (record c { book = set_level lv.side lv.price_ticks lv.size c.book }) e a

  run_skipped :
      (lvs : List L2Level) (c : Session)
      → (not c.have_event || not (first == c.cur_U)) ≡ false
      → c.cur_apply ≡ false
      → run fetch (map (level_message first last) lvs) c ≡ c
  unfolding run
  run_skipped [] c e a = refl
  run_skipped (lv ∷ lvs) c e a =
      ap (run fetch (map (level_message first last) lvs))
        (message_skipped fetch first last c lv e a)
      ∙ run_skipped lvs c e a

module _ (fetch : ℕ → Snapshot) (first last : ℕ) (c : Session) (new : IsNew first c) where
  -- The session in which the event's own levels are still to come.
  abbrev opened : Session
  opened = open_event first c

  abbrev applying : Session
  applying = record opened { mode = streaming; prev_u = last; cur_apply = true }

  opened_in : (not opened.have_event || not (first == opened.cur_U)) ≡ false
  unfolding open_event
  opened_in = ground arith

  pub event_skipped :
      (lvs : List L2Level)
      → judge first last opened ≡ skip
      → run fetch (messages (record { first = first; last = last; levels = lvs })) c ≡ opened
  unfolding messages run on_message enter_as apply_level open_event
  event_skipped [] j = rw (enter_new fetch first last c new, j, on_message) refl
  event_skipped (lv ∷ lvs) j =
      ap (run fetch (map (level_message first last) lvs))
        (rw (enter_new fetch first last c new, j, on_message) refl)
      ∙ run_skipped fetch first last lvs opened opened_in refl

  pub event_applied :
      (lvs : List L2Level)
      → judge first last opened ≡ apply
      → run fetch (messages (record { first = first; last = last; levels = lvs })) c
        ≡ record applying { book = set_levels lvs opened.book }
  unfolding messages run on_message enter_as apply_level set_levels open_event
  event_applied [] j = rw (enter_new fetch first last c new, j, on_message) refl
  event_applied (lv ∷ lvs) j =
      ap (run fetch (map (level_message first last) lvs))
        (rw (enter_new fetch first last c new, j, on_message) refl)
      ∙ run_applied fetch first last lvs
          (record applying { book = set_level lv.side lv.price_ticks lv.size opened.book })
          opened_in refl
