-- ===== src/LiveFeed.antt =====
-- The consumer thread of apps/live_feed.cpp: the book of an exchange's price levels, kept in step
-- with its stream of differences by the update ids. A fetched snapshot, which the source takes over
-- HTTP, is an argument: `fetch n` is the answer to the request that `resyncs` counts as the n-th.
pub mod Decode
pub mod Replay
pub mod Chain
pub mod Recovery
pub mod Producer
pub mod Bootstrap
pub mod Settings
mod Tests
use burst_resilient_feed_han.Base.{
  ℕ, ◌/◌, Bool, true, false, List, [], ◌∷◌, ◌==◌, ltb, leb, if◌then◌else◌, ◌&&◌, ◌||◌, not,
}
use burst_resilient_feed_han.Base.Int.{ℤ}
use burst_resilient_feed_han.Base.Word.{inc64}
use burst_resilient_feed_han.Event
use burst_resilient_feed_han.Event.{MarketEvent, EventType, Side}
use burst_resilient_feed_han.OrderBook.Types.{OrderBook, OrderBookConfig}
use burst_resilient_feed_han.OrderBook.Levels.{set_level, observe_event_boundary, reset}
use burst_resilient_feed_han.OrderBook.Price

pub record L2Level : Type 0 where
  pub side : Side
  pub price_ticks : ℤ
  pub size : ℕ

pub record Snapshot : Type 0 where
  pub ok : Bool
  pub http_status : ℤ
  pub last_update_id : ℕ
  pub best_bid : ℤ
  pub best_ask : ℤ
  pub levels : List L2Level

pub data Mode : Type 0 where
  seeking streaming : Mode

-- The variables that the consumer keeps for one session. `last_id` is `L`.
pub record Session : Type 0 where
  pub book : OrderBook
  pub last_id : ℕ
  pub mode : Mode
  pub prev_u : ℕ
  pub have_event : Bool
  pub cur_U : ℕ
  pub cur_apply : Bool
  pub gaps : ℕ
  pub resyncs : ℕ

-- `for (const auto& lv : s.levels) book.set_level(...)`.
unfoldable pub set_levels : List L2Level → OrderBook → OrderBook
set_levels [] b = b
set_levels (lv ∷ lvs) b = set_levels lvs (set_level lv.side lv.price_ticks lv.size b)

unfoldable pub preload : Snapshot → OrderBook → OrderBook
preload s b = observe_event_boundary (set_levels s.levels b)

unfoldable pub start_session : OrderBookConfig → Snapshot → Session
start_session bc s0 = record {
  book = preload s0 (Price.init bc);
  last_id = s0.last_update_id;
  mode = seeking;
  prev_u = 0;
  have_event = false;
  cur_U = 0;
  cur_apply = false;
  gaps = 0;
  resyncs = 0;
}

-- The lambda `re_snapshot`, on the snapshot that it fetched.
unfoldable pub reload : Snapshot → Session → Session
reload s2 c =
    if s2.ok
    then record c {
      book = preload s2 (reset c.book);
      last_id = s2.last_update_id;
      prev_u = 0;
      mode = seeking;
      have_event = false;
    }
    else record c { have_event = false }

-- What the first message of an event decides.
pub data Verdict : Type 0 where
  skip apply resync gap : Verdict

-- The tests on the update ids `first` and `last` of the event, `U` and `u` in the source.
unfoldable pub judge : ℕ → ℕ → Session → Verdict
judge first last c = elim c.mode [
  | seeking ↦
      if ltb last (inc64 c.last_id)
      then skip
      else if leb first (inc64 c.last_id)
      then apply
      else resync
  | streaming ↦ if leb last c.prev_u then skip else if first == inc64 c.prev_u then apply else gap
]

-- `if (have_event && cur_apply) book.observe_event_boundary(); ...`: the event before has ended.
unfoldable pub open_event : ℕ → Session → Session
open_event first c = record c {
  book = if c.have_event && c.cur_apply then observe_event_boundary c.book else c.book;
  have_event = true;
  cur_U = first;
  cur_apply = false;
}

abbrev is_set_level : EventType → Bool
is_set_level Event.l2_set_level = true
is_set_level _ = false

module _ (fetch : ℕ → Snapshot) where
  unfoldable pub re_snapshot : Session → Session
  re_snapshot c = let n = inc64 c.resyncs in reload (fetch n) (record c { resyncs = n })

  -- The verdict carried out. With `false` the loop goes on to the next message.
  unfoldable pub enter_as : Verdict → ℕ → Session → Bool × Session
  enter_as skip last c = (true, c)
  enter_as apply last c = (true, record c { mode = streaming; prev_u = last; cur_apply = true })
  enter_as resync last c = (false, re_snapshot c)
  enter_as gap last c = (false, re_snapshot (record c { gaps = inc64 c.gaps }))

  -- `if (!have_event || U != cur_U) { ... }`.
  unfoldable pub enter : ℕ → ℕ → Session → Bool × Session
  enter first last c =
      if not c.have_event || not (first == c.cur_U)
      then (let o = open_event first c in enter_as (judge first last o) last o)
      else (true, c)

  -- `if (cur_apply && e.type == EventType::L2SetLevel) book.set_level(...)`.
  unfoldable pub apply_level : MarketEvent → Session → Session
  apply_level e c =
      if c.cur_apply && is_set_level e.type
      then record c { book = set_level e.side e.price_ticks e.size c.book }
      else c

  -- One round of `while (f.channel.receive(m))`.
  unfoldable pub on_message : MarketEvent → Session → Session
  on_message e c =
      let (go, d) = enter e.order_ref e.match_number c in if go then apply_level e d else d

  unfoldable pub run : List MarketEvent → Session → Session
  run [] c = c
  run (e ∷ es) c = run es (on_message e c)
