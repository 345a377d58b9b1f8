-- ===== src/Itch/RoundTrip.antt =====
-- What the generator writes, the parser reads: each field comes back.
use burst_resilient_feed_han.Base.{ℕ, ◌%◌, ◌^◌, ◌<◌, ◌≡◌, List, [], ◌∷◌, arith, length}
use burst_resilient_feed_han.Base.Int.{pos}
use burst_resilient_feed_han.Event.{MarketEvent, EventType, default_event}
use burst_resilient_feed_han.Bytes.{
  load_u8, load_be16, load_be32, load_be48, load_be64, store_be16, store_be32, store_be48,
  store_be64,
}
use burst_resilient_feed_han.Bytes.RoundTrip.{be16-bytes, be32-bytes, be48-bytes, be64-bytes}
use burst_resilient_feed_han.Itch.{
  ok, decode_side, message_length, copy_symbol, decode_header, decode_add, decode_executed,
  decode_cancel, decode_delete, decode_replace, decode_trade, decode, parse,
}
use burst_resilient_feed_han.ItchGen.{
  Live, u32_of, hdr, emit_system, emit_add, emit_exec, emit_cancel, emit_delete, emit_replace,
  emit_trade,
}

-- A message's fields fit their widths: the clock 48 bits, references and matches 64, shares 32.
abbrev pub sym8 : ℕ → ℕ → ℕ → ℕ → ℕ → ℕ → ℕ → ℕ → List ℕ
sym8 a b c d e f g h = a ∷ b ∷ c ∷ d ∷ e ∷ f ∷ g ∷ h ∷ []

-- The event that every message's header gives.
abbrev pub headed : ℕ → MarketEvent
headed ts = record default_event { stock_locate = 1; timestamp_ns = ts }

module _ (ts : ℕ) (out : MarketEvent) (clock : ts < 2 ^ 48) where
  -- With values that fit their fields: an add comes back with its reference, side, size, symbol and
  -- price, if the price is one that 32 bits hold; whatever `out` held before is gone.
  pub parse-emit_add :
      (o : Live) (px a b c d e f g h : ℕ)
      → o.ref < 2 ^ 64
      → o.side < 256
      → o.sz < 2 ^ 32
      → o.px ≡ pos px
      → px < 2 ^ 32
      → let msg = emit_add ts (sym8 a b c d e f g h) o in
        parse msg (length msg) out ≡ (
          ok,
          record (headed ts) {
            type = EventType.add;
            order_ref = o.ref;
            side = decode_side o.side;
            size = o.sz;
            symbol = sym8 a b c d e f g h;
            price_ticks = pos px;
          },
        )
  unfolding emit_add hdr u32_of store_be16 store_be32 store_be48 store_be64 parse decode decode_add
      decode_header message_length copy_symbol load_u8 load_be16 load_be32 load_be48 load_be64
  parse-emit_add o px a b c d e f g h hr hs hz hp hx =
      let small : px % 2 ^ 32 ≡ px = omega arith in
      let side : o.side % 256 ≡ o.side = omega arith in
      rw (
        hp,
        small,
        side,
        be64-bytes o.ref hr,
        be48-bytes ts clock,
        be32-bytes o.sz hz,
        be32-bytes px hx,
        be16-bytes 1 (omega arith),
      )

  -- With values that fit their fields: an execution comes back with its reference, shares and match
  -- number.
  pub parse-emit_exec :
      (ref shares match : ℕ)
      → ref < 2 ^ 64
      → shares < 2 ^ 32
      → match < 2 ^ 64
      → let msg = emit_exec ts ref shares match in
        parse msg (length msg) out ≡ (
          ok,
          record (headed ts) {
            type = EventType.execute;
            order_ref = ref;
            size = shares;
            match_number = match;
          },
        )
  unfolding emit_exec hdr store_be16 store_be32 store_be48 store_be64 parse decode decode_executed
      decode_header message_length load_u8 load_be16 load_be32 load_be48 load_be64
  parse-emit_exec ref shares match hr hs hm = rw (
    be64-bytes ref hr,
    be48-bytes ts clock,
    be32-bytes shares hs,
    be64-bytes match hm,
    be16-bytes 1 (omega arith),
  )

  -- With values that fit their fields: a cancel and a delete come back with their reference, the
  -- cancel with its shares.
  pub parse-emit_cancel_delete :
      (ref shares : ℕ)
      → ref < 2 ^ 64
      → shares < 2 ^ 32
      → let x = emit_cancel ts ref shares in
        let d = emit_delete ts ref in
        (parse x (length x) out
          ≡ (ok, record (headed ts) { type = EventType.cancel; order_ref = ref; size = shares }))
        × (parse d (length d) out
            ≡ (ok, record (headed ts) { type = EventType.delete; order_ref = ref }))
  unfolding emit_cancel emit_delete hdr store_be16 store_be32 store_be48 store_be64 parse decode
      decode_cancel decode_delete decode_header message_length load_u8 load_be16 load_be32 load_be48
      load_be64
  parse-emit_cancel_delete ref shares hr hs = (
    rw (be64-bytes ref hr, be48-bytes ts clock, be32-bytes shares hs, be16-bytes 1 (omega arith)),
    rw (be64-bytes ref hr, be48-bytes ts clock, be16-bytes 1 (omega arith)),
  )

  -- With values that fit their fields: a replace comes back with both references, the new size and
  -- the new price.
  pub parse-emit_replace :
      (orig neu sz px : ℕ)
      → orig < 2 ^ 64
      → neu < 2 ^ 64
      → sz < 2 ^ 32
      → px < 2 ^ 32
      → let msg = emit_replace ts orig neu sz (pos px) in
        parse msg (length msg) out ≡ (
          ok,
          record (headed ts) {
            type = EventType.replace;
            order_ref = orig;
            new_order_ref = neu;
            size = sz;
            price_ticks = pos px;
          },
        )
  unfolding emit_replace hdr u32_of store_be16 store_be32 store_be48 store_be64 parse decode
      decode_replace decode_header message_length load_u8 load_be16 load_be32 load_be48 load_be64
  parse-emit_replace orig neu sz px ho hn hs hx =
      let small : px % 2 ^ 32 ≡ px = omega arith in
      rw (
        small,
        be64-bytes orig ho,
        be64-bytes neu hn,
        be48-bytes ts clock,
        be32-bytes sz hs,
        be32-bytes px hx,
        be16-bytes 1 (omega arith),
      )

  -- With values that fit their fields: a trade comes back with its side, shares, symbol and match
  -- number, at the middle price and with no reference; a system message as such.
  pub parse-emit_trade_system :
      (side shares match code a b c d e f g h : ℕ)
      → side < 256
      → shares < 2 ^ 32
      → match < 2 ^ 64
      → let p = emit_trade ts (sym8 a b c d e f g h) side shares match in
        let s = emit_system ts code in
        (parse p (length p) out ≡ (
          ok,
          record (headed ts) {
            type = EventType.trade;
            side = decode_side side;
            size = shares;
            symbol = sym8 a b c d e f g h;
            price_ticks = pos 1_000_000;
            match_number = match;
          },
        ))
        × (parse s (length s) out ≡ (ok, record (headed ts) { type = EventType.system_event }))
  unfolding emit_trade emit_system hdr store_be16 store_be32 store_be48 store_be64 parse decode
      decode_trade decode_header message_length copy_symbol load_u8 load_be16 load_be32 load_be48
      load_be64
  parse-emit_trade_system side shares match code a b c d e f g h hs hz hm =
      let byte_side : side % 256 ≡ side = omega arith in
      (
        rw (
          byte_side,
          be48-bytes ts clock,
          be32-bytes shares hz,
          be64-bytes match hm,
          be64-bytes 0 (omega arith),
          be32-bytes 1_000_000 (omega arith),
          be16-bytes 1 (omega arith),
        ),
        rw (be48-bytes ts clock, be16-bytes 1 (omega arith)),
      )
