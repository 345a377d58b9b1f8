-- ===== src/Ring/Threads.antt =====
-- The producer's and the consumer's thread on one ring, interleaved at each access to shared memory.
-- An acquire load sees the newest release store, and all that was written before it.
use burst_resilient_feed_han.Base.{ℕ, List, [], ◌∷◌, ◌++◌, if◌then◌else◌}
use burst_resilient_feed_han.Ring.{
  SpscRingBuffer, init, looks_full, looks_empty, reload_head, reload_tail, store_item, publish,
  load_item, release,
}

-- Where the producer is in `push`: outside, before the load of head_, before the store of the payload,
-- before the store of tail_. The consumer in `pop` likewise; what it has read comes along.
pub data PushAt {ℓ} (A : Type ℓ) : Type ℓ where
  outside : PushAt A
  full_by_cache storing publishing : A → PushAt A

pub data PopAt {ℓ} (A : Type ℓ) : Type ℓ where
  waiting empty_by_cache reading : PopAt A
  releasing : A → PopAt A

-- `accepted` are the items of the pushes that returned true, `delivered` those of the pops.
pub record Threads {ℓ} (A : Type ℓ) : Type ℓ where
  pub ring : SpscRingBuffer A
  pub pushing : PushAt A
  pub popping : PopAt A
  pub accepted : List A
  pub delivered : List A

-- A call begins, or a thread makes its next access.
pub data Act {ℓ} (A : Type ℓ) : Type ℓ where
  push : A → Act A
  produce pop take_item : Act A

module _ {ℓ} {A : Type ℓ} (k : ℕ) where
  unfoldable pub begin_push : A → PushAt A → Threads A → Threads A
  begin_push x outside s = record s {
    pushing = if looks_full k s.ring then full_by_cache x else storing x;
  }
  begin_push x (full_by_cache _) s = s
  begin_push x (storing _) s = s
  begin_push x (publishing _) s = s

  unfoldable pub advance_push : PushAt A → Threads A → Threads A
  advance_push outside s = s
  advance_push (full_by_cache x) s =
      let r = reload_head s.ring in
      record s { ring = r; pushing = if looks_full k r then outside else storing x }
  advance_push (storing x) s = record s { ring = store_item k x s.ring; pushing = publishing x }
  advance_push (publishing x) s = record s {
    ring = publish s.ring;
    pushing = outside;
    accepted = s.accepted ++ (x ∷ []);
  }

  unfoldable pub begin_pop : PopAt A → Threads A → Threads A
  begin_pop waiting s = record s {
    popping = if looks_empty s.ring then empty_by_cache else reading;
  }
  begin_pop empty_by_cache s = s
  begin_pop reading s = s
  begin_pop (releasing _) s = s

  unfoldable pub advance_pop : PopAt A → Threads A → Threads A
  advance_pop waiting s = s
  advance_pop empty_by_cache s =
      let r = reload_tail s.ring in
      record s { ring = r; popping = if looks_empty r then waiting else reading }
  advance_pop reading s = record s { popping = releasing (load_item k s.ring) }
  advance_pop (releasing x) s = record s {
    ring = release s.ring;
    popping = waiting;
    delivered = s.delivered ++ (x ∷ []);
  }

  unfoldable pub act : Act A → Threads A → Threads A
  act (push x) s = begin_push x s.pushing s
  act produce s = advance_push s.pushing s
  act pop s = begin_pop s.popping s
  act take_item s = advance_pop s.popping s

  unfoldable pub run : List (Act A) → Threads A → Threads A
  run [] s = s
  run (a ∷ rest) s = run rest (act a s)

unfoldable pub start {ℓ} : {A : Type ℓ} → A → Threads A
start blank = record {
  ring = init blank;
  pushing = outside;
  popping = waiting;
  accepted = [];
  delivered = [];
}
