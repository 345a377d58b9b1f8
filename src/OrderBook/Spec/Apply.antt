-- ===== src/OrderBook/Spec/Apply.antt =====
-- apply of src/order_book.cpp, for an event of any type and for a stream of events.
use burst_resilient_feed_han.Base.{ℕ, suc, ◌^◌, ◌<◌, List, [], ◌∷◌, length, inl, inr, Bool-cases}
use burst_resilient_feed_han.Event
use burst_resilient_feed_han.Event.{MarketEvent, EventType}
use burst_resilient_feed_han.OrderBook.Types.{OrderBook, OrderBookConfig}
use burst_resilient_feed_han.OrderBook.Best.{is_crossed}
use burst_resilient_feed_han.OrderBook.Links.Fifo.{Entry}
use burst_resilient_feed_han.OrderBook.Orders.{dispatch, apply, note_crossed}
use burst_resilient_feed_han.OrderBook.Spec.{change}
use burst_resilient_feed_han.OrderBook.Spec.Shows.{Shows, Shows-fewer, Shows-stats}
use burst_resilient_feed_han.OrderBook.Spec.Refine.{
  on_add-Shows, remove_order-Shows, reduce_order-Shows, replace_order-Shows,
}

module _ (n : ℕ) (c : OrderBookConfig) (es : List Entry) (ev : MarketEvent)
    (small : ev.size < 2 ^ 32) where
  dispatch-Shows :
      (t : EventType) (b : OrderBook)
      → Shows (suc n) c b es
      → Shows n c (dispatch t ev b) (change c t ev es)
  unfolding dispatch change
  dispatch-Shows Event.add b v = on_add-Shows n c _ es (Shows-stats (suc n) c b es _ v) ev small
  dispatch-Shows Event.execute b v =
      reduce_order-Shows n c _ es (Shows-stats (suc n) c b es _ v) ev.order_ref ev.size
  dispatch-Shows Event.execute_with_price b v =
      reduce_order-Shows n c _ es (Shows-stats (suc n) c b es _ v) ev.order_ref ev.size
  dispatch-Shows Event.cancel b v =
      reduce_order-Shows n c _ es (Shows-stats (suc n) c b es _ v) ev.order_ref ev.size
  dispatch-Shows Event.delete b v =
      remove_order-Shows n c _ es (Shows-stats (suc n) c b es _ v) ev.order_ref
  dispatch-Shows Event.replace b v =
      replace_order-Shows n c _ es (Shows-stats (suc n) c b es _ v) ev small
  dispatch-Shows Event.trade b v = Shows-stats n c b es _ (Shows-fewer n c b es v)
  dispatch-Shows Event.system_event b v = Shows-fewer n c b es v
  dispatch-Shows Event.unknown b v = Shows-fewer n c b es v
  dispatch-Shows Event.l2_set_level b v = Shows-fewer n c b es v
  dispatch-Shows Event.l2_event_header b v = Shows-fewer n c b es v

  note_crossed-Shows :
      (b : OrderBook)
      → Shows n c b (change c ev.type ev es)
      → Shows n c (note_crossed b) (change c ev.type ev es)
  unfolding note_crossed
  note_crossed-Shows b v = elim (Bool-cases (is_crossed b)) [
    | inl t ↦ rw t (Shows-stats n c b _ _ v)
    | inr f ↦ rw f v
  ]

  -- On a book that shows the orders `es`, when the event's size fits 32 bits: whatever the type of
  -- the event, the book shows afterwards what the event makes of `es`, in the same order.
  pub apply-Shows :
      (b : OrderBook) → Shows (suc n) c b es → Shows n c (apply ev b) (change c ev.type ev es)
  unfolding apply
  apply-Shows b v = note_crossed-Shows _ (Shows-stats n c _ _ _ (dispatch-Shows ev.type b v))

-- The events of a stream, each of them after the ones before it.
unfoldable pub change_all : OrderBookConfig → List MarketEvent → List Entry → List Entry
change_all c [] es = es
change_all c (ev ∷ evs) es = change_all c evs (change c ev.type ev es)

abbrev pub AllFit : List MarketEvent → Type 0
AllFit [] = Unit {0}
AllFit (ev ∷ evs) = (ev.size < 2 ^ 32) × AllFit evs

-- The same events applied by the code.
abbrev pub apply_all : List MarketEvent → OrderBook → OrderBook
apply_all [] b = b
apply_all (ev ∷ evs) b = apply_all evs (apply ev b)

-- On a book that shows the orders `es` and can count as many more as there are events, whose sizes
-- fit 32 bits: after all of them the book shows what the events, each in turn, make of the list
-- `es`.
pub apply_all-Shows :
    (c : OrderBookConfig) (evs : List MarketEvent) (b : OrderBook) (es : List Entry)
    → AllFit evs
    → Shows (length evs) c b es
    → Shows 0 c (apply_all evs b) (change_all c evs es)
unfolding change_all
apply_all-Shows c [] b es fit v = v
apply_all-Shows c (ev ∷ evs) b es fit v =
    apply_all-Shows c evs (apply ev b) (change c ev.type ev es) fit.1
      (apply-Shows (length evs) c es ev fit.0 b v)
