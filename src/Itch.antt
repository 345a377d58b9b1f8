-- ===== src/Itch.antt =====
-- src/itch_parser.cpp: the length of each message type, and the decoding of a frame into an event.
pub mod Bounds
pub mod RoundTrip
mod Tests
use burst_resilient_feed_han.Base.{ℕ, ◌+◌, List, [], ◌∷◌, ◌==◌, ltb, if◌then◌else◌}
use burst_resilient_feed_han.Base.Int.{pos}
use burst_resilient_feed_han.Event
use burst_resilient_feed_han.Event.{MarketEvent, EventType, Side, default_event}
use burst_resilient_feed_han.Bytes.{byte, load_u8, load_be16, load_be32, load_be48, load_be64}

pub data ParseStatus : Type 0 where
  ok short_buffer unknown_type : ParseStatus

unfoldable pub decode_side : ℕ → Side
decode_side c = if c == b'B' then Side.buy else if c == b'S' then Side.sell else Side.nobody

-- 0 for a byte that is no message type.
unfoldable pub message_length : ℕ → ℕ
message_length type =
    if type == b'S'
    then 12
    else if type == b'R'
    then 39
    else if type == b'H'
    then 25
    else if type == b'Y'
    then 20
    else if type == b'L'
    then 26
    else if type == b'V'
    then 35
    else if type == b'W'
    then 12
    else if type == b'K'
    then 28
    else if type == b'J'
    then 35
    else if type == b'h'
    then 21
    else if type == b'A'
    then 36
    else if type == b'F'
    then 40
    else if type == b'E'
    then 31
    else if type == b'C'
    then 36
    else if type == b'X'
    then 23
    else if type == b'D'
    then 19
    else if type == b'U'
    then 35
    else if type == b'P'
    then 44
    else if type == b'Q'
    then 40
    else if type == b'B'
    then 19
    else if type == b'I'
    then 50
    else if type == b'N'
    then 20
    else if type == b'O'
    then 48
    else 0

-- `memcpy(out.symbol, msg + off, 8)`.
unfoldable pub copy_symbol : List ℕ → ℕ → List ℕ
copy_symbol msg off =
    byte msg off
    ∷ byte msg (off + 1)
    ∷ byte msg (off + 2)
    ∷ byte msg (off + 3)
    ∷ byte msg (off + 4)
    ∷ byte msg (off + 5)
    ∷ byte msg (off + 6)
    ∷ byte msg (off + 7)
    ∷ []

-- `out = MarketEvent{}; decode_header(msg, out);`
unfoldable pub decode_header : List ℕ → MarketEvent
decode_header msg = record default_event {
  stock_locate = load_be16 msg 1;
  timestamp_ns = load_be48 msg 5;
}

-- The cases of the switch, on the event with its header.
unfoldable pub decode_add : List ℕ → MarketEvent → MarketEvent
decode_add msg out = record out {
  type = EventType.add;
  order_ref = load_be64 msg 11;
  side = decode_side (load_u8 msg 19);
  size = load_be32 msg 20;
  symbol = copy_symbol msg 24;
  price_ticks = pos (load_be32 msg 32);
}

unfoldable pub decode_executed : List ℕ → MarketEvent → MarketEvent
decode_executed msg out = record out {
  type = EventType.execute;
  order_ref = load_be64 msg 11;
  size = load_be32 msg 19;
  match_number = load_be64 msg 23;
}

unfoldable pub decode_executed_price : List ℕ → MarketEvent → MarketEvent
decode_executed_price msg out = record out {
  type = EventType.execute_with_price;
  order_ref = load_be64 msg 11;
  size = load_be32 msg 19;
  match_number = load_be64 msg 23;
  price_ticks = pos (load_be32 msg 32);
}

unfoldable pub decode_cancel : List ℕ → MarketEvent → MarketEvent
decode_cancel msg out = record out {
  type = EventType.cancel;
  order_ref = load_be64 msg 11;
  size = load_be32 msg 19;
}

unfoldable pub decode_delete : List ℕ → MarketEvent → MarketEvent
decode_delete msg out = record out { type = EventType.delete; order_ref = load_be64 msg 11 }

unfoldable pub decode_replace : List ℕ → MarketEvent → MarketEvent
decode_replace msg out = record out {
  type = EventType.replace;
  order_ref = load_be64 msg 11;
  new_order_ref = load_be64 msg 19;
  size = load_be32 msg 27;
  price_ticks = pos (load_be32 msg 31);
}

unfoldable pub decode_trade : List ℕ → MarketEvent → MarketEvent
decode_trade msg out = record out {
  type = EventType.trade;
  order_ref = load_be64 msg 11;
  side = decode_side (load_u8 msg 19);
  size = load_be32 msg 20;
  symbol = copy_symbol msg 24;
  price_ticks = pos (load_be32 msg 32);
  match_number = load_be64 msg 36;
}

unfoldable pub decode : ℕ → List ℕ → MarketEvent → MarketEvent
decode type msg out =
    if type == b'A'
    then decode_add msg out
    else if type == b'F'
    then decode_add msg out
    else if type == b'E'
    then decode_executed msg out
    else if type == b'C'
    then decode_executed_price msg out
    else if type == b'X'
    then decode_cancel msg out
    else if type == b'D'
    then decode_delete msg out
    else if type == b'U'
    then decode_replace msg out
    else if type == b'P'
    then decode_trade msg out
    else if type == b'S'
    then record out { type = EventType.system_event }
    else record out { type = EventType.unknown }

-- The status, and what is in `out` afterwards.
unfoldable pub parse : List ℕ → ℕ → MarketEvent → ParseStatus × MarketEvent
parse msg len out =
    let type = load_u8 msg 0 in
    let need = message_length type in
    if len == 0
    then (short_buffer, out)
    else if need == 0
    then (unknown_type, out)
    else if ltb len need
    then (short_buffer, out)
    else (ok, decode type msg (decode_header msg))
