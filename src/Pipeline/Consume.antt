-- ===== src/Pipeline/Consume.antt =====
-- The consumer's book is the one that the delivered events make, in their order.
use burst_resilient_feed_han.Base.{
  ℕ, zero, suc, ◌+◌, ◌^◌, ◌<◌, ◌≡◌, ◌≢◌, refl, sym, ap, subst, ◌∙◌, inl, inr, none, List, [], ◌∷◌,
  ◌++◌, length, Option-cases,
}
use burst_resilient_feed_han.Base.Word.{inc64}
use burst_resilient_feed_han.Event.{MarketEvent}
use burst_resilient_feed_han.Sequencer
use burst_resilient_feed_han.Sequencer.{
  Sequencer, SequencerConfig, Disposition, overflow, offer, pop_ready,
}
use burst_resilient_feed_han.Sequencer.Drain.{drain_fuel, drain, react, step, feed, Agrees}
use burst_resilient_feed_han.Sequencer.Buffer.{find}
use burst_resilient_feed_han.Sequencer.InOrder.{NoOverflow, feed_in_order}
use burst_resilient_feed_han.OrderBook.Types.{OrderBook, OrderBookConfig}
use burst_resilient_feed_han.OrderBook.Orders
use burst_resilient_feed_han.OrderBook.Spec.Apply.{apply_all}
use burst_resilient_feed_han.OrderBook.Price
use burst_resilient_feed_han.Pipeline.{
  Consumer, init, apply_ev, drain_into_fuel, drain_into, handle_as, handle, consume,
}

apply_all-append :
    (es fs : List MarketEvent) (b : OrderBook)
    → apply_all (es ++ fs) b ≡ apply_all fs (apply_all es b)
apply_all-append [] fs b = refl
apply_all-append (e ∷ es) fs b = apply_all-append es fs (Orders.apply e b)

-- The consumer `d` comes from `c` by the delivery of the events.
pub record Follows (c : Consumer) (es : List MarketEvent) (s : Sequencer) (d : Consumer)
    : Type 0 where
  pub book : d.book ≡ apply_all es c.book
  pub seq : d.seq ≡ s

drain_into_fuel-Follows :
    (fuel : ℕ) (c : Consumer)
    → let (es, s) = drain_fuel fuel c.seq in Follows c es s (drain_into_fuel fuel c)
unfolding drain_into_fuel drain_fuel apply_ev
drain_into_fuel-Follows zero c = record { book = refl; seq = refl }
drain_into_fuel-Follows (suc fuel) c = elim (Option-cases (pop_ready c.seq).0) [
  | inl e ↦ rw (e, drain_into_fuel, drain_fuel) (record { book = refl; seq = refl })
  | inr (ev, e) ↦
      rw (e, drain_into_fuel, drain_fuel)
        (let v =
            drain_into_fuel-Follows fuel (apply_ev ev (record c { seq = (pop_ready c.seq).1 })) in
          record { book = v.book; seq = v.seq })
]

handle_as-Follows :
    (d : Disposition) (sequence : ℕ) (event : MarketEvent) (c : Consumer)
    → d ≢ overflow
    → let (es, s) = react sequence event d c.seq in Follows c es s (handle_as d sequence event c)
unfolding handle_as react drain drain_into apply_ev
handle_as-Follows Sequencer.apply sequence event c h =
    let v = drain_into_fuel-Follows (suc (length c.seq.reorder)) (apply_ev event c) in
    record { book = v.book; seq = v.seq }
handle_as-Follows Sequencer.overflow sequence event c h = absurd (h refl)
handle_as-Follows Sequencer.drop sequence event c h = record { book = refl; seq = refl }
handle_as-Follows Sequencer.buffered sequence event c h = record { book = refl; seq = refl }

handle-Follows :
    (sequence : ℕ) (event : MarketEvent) (c : Consumer)
    → (offer sequence event c.seq).0 ≢ overflow
    → let (es, s) = step sequence event c.seq in Follows c es s (handle sequence event c)
unfolding handle step
handle-Follows sequence event c h =
    let (d, s) = offer sequence event c.seq in
    let v = handle_as-Follows d sequence event (record c { msgs = inc64 c.msgs; seq = s }) h in
    record { book = v.book; seq = v.seq }

pub consume-Follows :
    (ms : List (ℕ × MarketEvent)) (c : Consumer) (s : Sequencer)
    → c.seq ≡ s
    → NoOverflow ms s
    → let (es, t) = feed ms s in Follows c es t (consume ms c)
unfolding consume feed
consume-Follows [] c s e h = record { book = refl; seq = e }
consume-Follows ((sequence, event) ∷ ms) c s e h =
    let v =
      handle-Follows sequence event c
        (subst (λ x. (offer sequence event x).0 ≢ overflow) (sym e) h.0) in
    let (ds, t) = step sequence event s in
    let same = ap (λ x. step sequence event x) e in
    let w = consume-Follows ms (handle sequence event c) t (v.seq ∙ ap (λ x. x.1) same) h.1 in
    record {
      book =
          w.book
          ∙ ap (apply_all (feed ms t).0) (v.book ∙ ap (λ x. apply_all x.0 c.book) same)
          ∙ sym (apply_all-append ds (feed ms t).0 c.book);
      seq = w.seq;
    }

-- Over a stream in any order, with repeats, that never overflows the reorder buffer (nor the 64-bit
-- counter), the consumer's book is what a fresh book becomes by the first arrivals of `start_seq`,
-- `start_seq + 1` and so on, applied in this order, up to the first number that has not arrived.
pub consume_in_order :
    (book_cfg : OrderBookConfig) (seq_cfg : SequencerConfig) (ms : List (ℕ × MarketEvent))
    → seq_cfg.start_seq + length ms + 2 < 2 ^ 64
    → NoOverflow ms (Sequencer.init seq_cfg)
    → (ds : List MarketEvent) × Agrees seq_cfg.start_seq ds ms
      × (find (seq_cfg.start_seq + length ds) ms ≡ none)
      × ((consume ms (init book_cfg seq_cfg)).book ≡ apply_all ds (Price.init book_cfg))
unfolding init
consume_in_order book_cfg seq_cfg ms h n =
    let (agrees, next, counted, _) = feed_in_order seq_cfg ms h n in
    let v = consume-Follows ms (init book_cfg seq_cfg) (Sequencer.init seq_cfg) refl n in
    (
      (feed ms (Sequencer.init seq_cfg)).0,
      agrees,
      subst (λ (k : ℕ). find k ms ≡ none) counted next,
      v.book,
    )
