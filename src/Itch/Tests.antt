-- ===== src/Itch/Tests.antt =====
-- The parser's theorems at concrete messages.
use burst_resilient_feed_han.Base.{◌≡◌, refl, [], ◌∷◌, length, arith}
use burst_resilient_feed_han.Base.Int.{pos}
use burst_resilient_feed_han.Event.{EventType, default_event}
use burst_resilient_feed_han.Bytes.{load_u8}
use burst_resilient_feed_han.Itch.{
  ok, short_buffer, unknown_type, decode_side, message_length, parse,
}
use burst_resilient_feed_han.Itch.Bounds.{SameBytes, parse_reads_within}
use burst_resilient_feed_han.Itch.RoundTrip.{
  sym8, headed, parse-emit_add, parse-emit_exec, parse-emit_cancel_delete, parse-emit_replace,
  parse-emit_trade_system,
}
use burst_resilient_feed_han.ItchGen.{
  Live, emit_system, emit_add, emit_exec, emit_cancel, emit_delete, emit_replace, emit_trade,
}

abbrev live_offer : Live
live_offer = record { ref = 7; side = b'S'; px = pos 1_000_003; sz = 300 }

parse_unknown : parse (b'z' ∷ []) 1 default_event ≡ (unknown_type, default_event)
unfolding parse message_length load_u8
parse_unknown = refl

parse_short : parse (b'D' ∷ 0 ∷ []) 2 default_event ≡ (short_buffer, default_event)
unfolding parse message_length load_u8
parse_short = refl

same_front : SameBytes 1 (b'D' ∷ 1 ∷ []) (b'D' ∷ 2 ∷ [])
same_front i h = ground arith

parse_reads_within_example :
    parse (b'D' ∷ 1 ∷ []) 1 default_event ≡ parse (b'D' ∷ 2 ∷ []) 1 default_event
parse_reads_within_example =
    parse_reads_within (b'D' ∷ 1 ∷ []) (b'D' ∷ 2 ∷ []) 1 default_event same_front

parse-emit_add_example :
    let msg = emit_add 5 (sym8 65 66 67 68 32 32 32 32) live_offer in
    parse msg (length msg) default_event ≡ (
      ok,
      record (headed 5) {
        type = EventType.add;
        order_ref = 7;
        side = decode_side b'S';
        size = 300;
        symbol = sym8 65 66 67 68 32 32 32 32;
        price_ticks = pos 1_000_003;
      },
    )
parse-emit_add_example =
    parse-emit_add 5 default_event (omega arith) live_offer 1_000_003 65 66 67 68 32 32 32 32
      (omega arith) (omega arith) (omega arith) refl (omega arith)

parse-emit_exec_example :
    let msg = emit_exec 5 7 100 9 in
    parse msg (length msg) default_event ≡ (
      ok,
      record (headed 5) { type = EventType.execute; order_ref = 7; size = 100; match_number = 9 },
    )
parse-emit_exec_example =
    parse-emit_exec 5 default_event (omega arith) 7 100 9 (omega arith) (omega arith) (omega arith)

parse-emit_cancel_delete_example :
    let x = emit_cancel 5 7 100 in
    let d = emit_delete 5 7 in
    (parse x (length x) default_event
      ≡ (ok, record (headed 5) { type = EventType.cancel; order_ref = 7; size = 100 }))
    × (parse d (length d) default_event
        ≡ (ok, record (headed 5) { type = EventType.delete; order_ref = 7 }))
parse-emit_cancel_delete_example =
    parse-emit_cancel_delete 5 default_event (omega arith) 7 100 (omega arith) (omega arith)

parse-emit_replace_example :
    let msg = emit_replace 5 7 8 200 (pos 999_999) in
    parse msg (length msg) default_event ≡ (
      ok,
      record (headed 5) {
        type = EventType.replace;
        order_ref = 7;
        new_order_ref = 8;
        size = 200;
        price_ticks = pos 999_999;
      },
    )
parse-emit_replace_example =
    parse-emit_replace 5 default_event (omega arith) 7 8 200 999_999 (omega arith) (omega arith)
      (omega arith) (omega arith)

parse-emit_trade_system_example :
    let p = emit_trade 5 (sym8 65 66 67 68 32 32 32 32) b'B' 100 3 in
    let s = emit_system 5 b'O' in
    (parse p (length p) default_event ≡ (
      ok,
      record (headed 5) {
        type = EventType.trade;
        side = decode_side b'B';
        size = 100;
        symbol = sym8 65 66 67 68 32 32 32 32;
        price_ticks = pos 1_000_000;
        match_number = 3;
      },
    ))
    × (parse s (length s) default_event ≡ (ok, record (headed 5) { type = EventType.system_event }))
parse-emit_trade_system_example =
    parse-emit_trade_system 5 default_event (omega arith) b'B' 100 3 b'O' 65 66 67 68 32 32 32 32
      (omega arith) (omega arith) (omega arith)
