-- ===== src/Ring.antt =====
-- include/feedhandler/spsc_ring_buffer.hpp: the ring between the two threads. `push` and `pop` are put
-- together from the accesses to shared memory that they make; Ring/Threads interleaves these. The
-- capacity is 2 ^ k, as the class demands. The array is a function of the slot.
pub mod Slots
pub mod Channel
pub mod Contents
pub mod Queue
pub mod Sound
pub mod Interleaving
mod Tests
pub mod Threads
use burst_resilient_feed_han.Base.{
  ℕ, ◌^◌, Bool, true, false, Option, none, some, if◌then◌else◌, ◌==◌, leb,
}
use burst_resilient_feed_han.Base.Word.{sub64, inc64}
use burst_resilient_feed_han.OrderBook.Types.{update}
use burst_resilient_feed_han.Ring.Slots.{slot}

pub record SpscRingBuffer {ℓ} (A : Type ℓ) : Type ℓ where
  pub head : ℕ
  pub tail : ℕ
  pub cached_tail : ℕ
  pub cached_head : ℕ
  pub buffer : ℕ → A

pub data Backpressure : Type 0 where
  block drop : Backpressure

module _ {ℓ} {A : Type ℓ} where
  -- The array's items at the start are `blank`.
  unfoldable pub init : A → SpscRingBuffer A
  init blank = record { head = 0; tail = 0; cached_tail = 0; cached_head = 0; buffer = λ _. blank }

  -- `tail - cached_head_ >= Capacity`.
  unfoldable pub looks_full : ℕ → SpscRingBuffer A → Bool
  looks_full k r = leb (2 ^ k) (sub64 r.tail r.cached_head)

  -- `head == cached_tail_`.
  unfoldable pub looks_empty : SpscRingBuffer A → Bool
  looks_empty r = r.head == r.cached_tail

  unfoldable pub reload_head : SpscRingBuffer A → SpscRingBuffer A
  reload_head r = record r { cached_head = r.head }

  unfoldable pub reload_tail : SpscRingBuffer A → SpscRingBuffer A
  reload_tail r = record r { cached_tail = r.tail }

  -- The payload, and then the index.
  unfoldable pub store_item : ℕ → A → SpscRingBuffer A → SpscRingBuffer A
  store_item k item r = record r { buffer = update r.buffer (slot k r.tail) item }

  unfoldable pub publish : SpscRingBuffer A → SpscRingBuffer A
  publish r = record r { tail = inc64 r.tail }

  unfoldable pub load_item : ℕ → SpscRingBuffer A → A
  load_item k r = r.buffer (slot k r.head)

  unfoldable pub release : SpscRingBuffer A → SpscRingBuffer A
  release r = record r { head = inc64 r.head }

  unfoldable pub push : ℕ → A → SpscRingBuffer A → Bool × SpscRingBuffer A
  push k item r =
      let q = if looks_full k r then reload_head r else r in
      if looks_full k q then (false, q) else (true, publish (store_item k item q))

  -- `none` is the result false.
  unfoldable pub pop : ℕ → SpscRingBuffer A → Option A × SpscRingBuffer A
  pop k r =
      let q = if looks_empty r then reload_tail r else r in
      if looks_empty q then (none, q) else (some (load_item k q), release q)

  unfoldable pub size_approx : SpscRingBuffer A → ℕ
  size_approx r = sub64 r.tail r.head
