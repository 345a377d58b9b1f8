-- ===== src/OrderBook/TopWrite.antt =====
-- A book whose level `idx` is written: the cached indices after the rescan, and after the raise.
use burst_resilient_feed_han.Base.{
  ℕ, ◌<◌, ◌≡◌, ◌≢◌, refl, sym, ap, ◌∙◌, true, false, inl, inr, arith, Bool-cases,
}
use burst_resilient_feed_han.Base.Cache.{higher, lower}
use burst_resilient_feed_han.Event.{Side, nobody, buy, sell, side_eq_sound}
use burst_resilient_feed_han.OrderBook.Types.{OrderBook, PriceLevel, update}
use burst_resilient_feed_han.OrderBook.Best.{
  holds, rescan_after, rescan_best_bid_from, rescan_best_ask_from, raise_best,
}
use burst_resilient_feed_han.OrderBook.Top.{
  IsTop, bid-rescan_after, ask-rescan_after, bid_lost, ask_lost, bid_gained, ask_gained, bid_kept,
  ask_kept,
}

pub levels-rescan_after :
    (s : Side) (idx : ℕ) (b : OrderBook) → (rescan_after s idx b).levels ≡ b.levels
unfolding rescan_after rescan_best_bid_from rescan_best_ask_from
levels-rescan_after s idx b = ground arith

pub num_levels-rescan_after :
    (s : Side) (idx : ℕ) (b : OrderBook) → (rescan_after s idx b).num_levels ≡ b.num_levels
unfolding rescan_after rescan_best_bid_from rescan_best_ask_from
num_levels-rescan_after s idx b = ground arith

pub bid-rescan_other :
    (s : Side) (idx : ℕ) (b : OrderBook)
    → s ≢ buy
    → (rescan_after s idx b).best_bid_idx ≡ b.best_bid_idx
unfolding rescan_after rescan_best_bid_from rescan_best_ask_from
bid-rescan_other nobody idx b ne = ground arith
bid-rescan_other buy idx b ne = absurd (ne refl)
bid-rescan_other sell idx b ne = ground arith

pub ask-rescan_other :
    (s : Side) (idx : ℕ) (b : OrderBook)
    → s ≢ sell
    → (rescan_after s idx b).best_ask_idx ≡ b.best_ask_idx
unfolding rescan_after rescan_best_bid_from rescan_best_ask_from
ask-rescan_other nobody idx b ne = ground arith
ask-rescan_other buy idx b ne = ground arith
ask-rescan_other sell idx b ne = absurd (ne refl)

-- A level holds something for its own side only, and nothing when it is empty.
pub holds_owner : (t : Side) (l : PriceLevel) → holds t l ≡ true → l.side ≡ t
holds_owner t l h = side_eq_sound l.side t (ground arith)

pub holds_empty : (t : Side) (l : PriceLevel) → l.order_count ≡ 0 → holds t l ≡ false
holds_empty t l h = ground arith

pub holds_other : (t : Side) (l : PriceLevel) → l.side ≢ t → holds t l ≡ false
holds_other t l ne = elim (Bool-cases (holds t l)) [
  | inl h ↦ absurd (ne (holds_owner t l h))
  | inr f ↦ f
]

pub holds_buy : (l : PriceLevel) → l.side ≡ buy → 0 < l.order_count → holds buy l ≡ true
holds_buy l e h = rw e (ground arith)

pub holds_sell : (l : PriceLevel) → l.side ≡ sell → 0 < l.order_count → holds sell l ≡ true
holds_sell l e h = rw e (ground arith)

-- `b` with its level `idx` written, the cached indices and the size untouched.
pub record Wrote (b : OrderBook) (idx : ℕ) (l : PriceLevel) (c : OrderBook) : Type 0 where
  pub written : c.levels ≡ update b.levels idx l
  pub sized : c.num_levels ≡ b.num_levels
  pub same_bid : c.best_bid_idx ≡ b.best_bid_idx
  pub same_ask : c.best_ask_idx ≡ b.best_ask_idx

module _ (b : OrderBook) (idx : ℕ) (l : PriceLevel) (c : OrderBook) (w : Wrote b idx l c)
    (v : IsTop b) (inside : idx < b.num_levels) where
  -- The level was `s`'s and is nobody's now.
  pub lost-IsTop :
      (s : Side)
      → holds buy l ≡ false
      → holds sell l ≡ false
      → (holds buy (b.levels idx) ≡ true → s ≡ buy)
      → (holds sell (b.levels idx) ≡ true → s ≡ sell)
      → IsTop (rescan_after s idx c)
  lost-IsTop s fb fs ob os = record {
    bid =
        rw
          (
            levels-rescan_after, num_levels-rescan_after, bid-rescan_after, w.written, w.sized,
            w.same_bid, v.bid,
          )
          (bid_lost b.levels b.num_levels idx l inside s fb ob);
    ask =
        rw
          (
            levels-rescan_after, num_levels-rescan_after, ask-rescan_after, w.written, w.sized,
            w.same_ask, v.ask,
          )
          (ask_lost b.levels b.num_levels idx l inside s fs os);
  }

  -- The level holds for either side what it held.
  pub kept-IsTop :
      holds buy l ≡ holds buy (b.levels idx) → holds sell l ≡ holds sell (b.levels idx) → IsTop c
  kept-IsTop eb es = record {
    bid =
        rw (w.written, w.sized, w.same_bid, v.bid) (bid_kept b.levels b.num_levels idx l inside eb);
    ask =
        rw (w.written, w.sized, w.same_ask, v.ask) (ask_kept b.levels b.num_levels idx l inside es);
  }

  -- The level is a buyers' level now, and held nothing for sellers.
  pub bought-IsTop :
      holds buy l ≡ true → holds sell l ≡ holds sell (b.levels idx) → IsTop (raise_best buy idx c)
  unfolding raise_best
  bought-IsTop t e = record {
    bid =
        rw (w.written, w.sized, w.same_bid, v.bid)
          (bid_gained b.levels b.num_levels idx l inside t);
    ask =
        rw (w.written, w.sized, w.same_ask, v.ask) (ask_kept b.levels b.num_levels idx l inside e);
  }

  pub sold-IsTop :
      holds sell l ≡ true → holds buy l ≡ holds buy (b.levels idx) → IsTop (raise_best sell idx c)
  unfolding raise_best
  sold-IsTop t e = record {
    bid =
        rw (w.written, w.sized, w.same_bid, v.bid) (bid_kept b.levels b.num_levels idx l inside e);
    ask =
        rw (w.written, w.sized, w.same_ask, v.ask)
          (ask_gained b.levels b.num_levels idx l inside t);
  }

  -- The level changes hands: the old owner's index is recomputed, the new owner's raised.
  pub flipped_to_buy-IsTop :
      holds buy l ≡ true
      → holds sell l ≡ false
      → (s : Side) → s ≢ buy
      → (holds sell (b.levels idx) ≡ true → s ≡ sell)
      → IsTop (raise_best buy idx (rescan_after s idx c))
  unfolding raise_best
  flipped_to_buy-IsTop t f s ne os = record {
    bid =
        rw (levels-rescan_after, num_levels-rescan_after, w.written, w.sized)
          (ap (λ k. higher k idx) (bid-rescan_other s idx _ ne ∙ w.same_bid ∙ v.bid)
            ∙ bid_gained b.levels b.num_levels idx l inside t);
    ask =
        rw
          (
            levels-rescan_after, num_levels-rescan_after, ask-rescan_after, w.written, w.sized,
            w.same_ask, v.ask,
          )
          (ask_lost b.levels b.num_levels idx l inside s f os);
  }

  pub flipped_to_sell-IsTop :
      holds sell l ≡ true
      → holds buy l ≡ false
      → (s : Side) → s ≢ sell
      → (holds buy (b.levels idx) ≡ true → s ≡ buy)
      → IsTop (raise_best sell idx (rescan_after s idx c))
  unfolding raise_best
  flipped_to_sell-IsTop t f s ne ob = record {
    bid =
        rw
          (
            levels-rescan_after, num_levels-rescan_after, bid-rescan_after, w.written, w.sized,
            w.same_bid, v.bid,
          )
          (bid_lost b.levels b.num_levels idx l inside s f ob);
    ask =
        rw (levels-rescan_after, num_levels-rescan_after, w.written, w.sized)
          (ap (λ k. lower k idx) (ask-rescan_other s idx _ ne ∙ w.same_ask ∙ v.ask)
            ∙ ask_gained b.levels b.num_levels idx l inside t);
  }

  -- A level that holds something for `side` only, and before held nothing for another side.
  pub raised-IsTop :
      (side : Side)
      → l.side ≡ side
      → 0 < l.order_count
      → ((t : Side) → t ≢ side → holds t (b.levels idx) ≡ false)
      → IsTop (raise_best side idx c)
  unfolding raise_best
  raised-IsTop nobody e h alone =
      kept-IsTop (holds_other buy l (λ p. cc) ∙ sym (alone buy (λ p. cc)))
        (holds_other sell l (λ p. cc) ∙ sym (alone sell (λ p. cc)))
  raised-IsTop buy e h alone =
      bought-IsTop (holds_buy l e h) (holds_other sell l (λ p. cc) ∙ sym (alone sell (λ p. cc)))
  raised-IsTop sell e h alone =
      sold-IsTop (holds_sell l e h) (holds_other buy l (λ p. cc) ∙ sym (alone buy (λ p. cc)))

  -- A level that was `s`'s and is another side's now.
  pub flipped-IsTop :
      (side s : Side)
      → l.side ≡ side
      → 0 < l.order_count
      → (b.levels idx).side ≡ s
      → s ≢ side
      → IsTop (raise_best side idx (rescan_after s idx c))
  unfolding raise_best
  flipped-IsTop nobody s e h o ne =
      lost-IsTop s (holds_other buy l (λ p. cc)) (holds_other sell l (λ p. cc))
        (λ t. sym o ∙ holds_owner buy (b.levels idx) t)
        (λ t. sym o ∙ holds_owner sell (b.levels idx) t)
  flipped-IsTop buy s e h o ne =
      flipped_to_buy-IsTop (holds_buy l e h) (holds_other sell l (λ p. cc)) s ne
        (λ t. sym o ∙ holds_owner sell (b.levels idx) t)
  flipped-IsTop sell s e h o ne =
      flipped_to_sell-IsTop (holds_sell l e h) (holds_other buy l (λ p. cc)) s ne
        (λ t. sym o ∙ holds_owner buy (b.levels idx) t)
