-- ===== src/LiveFeed/Settings.antt =====
-- The settings of apps/live_feed.cpp: markets, endpoints, symbols and the environment. std::tolower and
-- std::toupper, the conversions between numbers and strings and getenv are arguments.
use Prim.Native.Char.{Char}
use Prim.Native.String.{String, ◌++◌, len, find, slice}
use text.Mathlib.Text.{◌==◌}
use burst_resilient_feed_han.Base.{
  ◌+◌, Bool, false, Option, none, some, List, [], ◌∷◌, ltb, leb, if◌then◌else◌, ◌&&◌, ◌||◌, not,
}
use burst_resilient_feed_han.Base.Int.{ℤ, pos, ltb_ℤ, eqb_ℤ}

pub data MarketMode : Type 0 where
  auto global us both : MarketMode

pub record FeedEndpoints : Type 0 where
  pub id : String
  pub label : String
  pub rest_host : String
  pub ws_host : String

-- `band_pct`, a floating-point number, has the type `D`.
pub record Config (D : Type 0) : Type 0 where
  pub symbol : String
  pub price_scale : ℤ
  pub size_scale : ℤ
  pub band_pct : D
  pub drop : Bool
  pub duration_s : ℤ
  pub depth_ms : ℤ
  pub serve_port : ℤ
  pub bind_host : String
  pub market : MarketMode
  pub ws_url : String
  pub rest_host : String
  pub rest_host_set : Bool
  pub ws_url_set : Bool

-- `lower` and `upper`, with the C library's conversion of one character.
unfoldable pub convert : (Char → Char) → String → String
convert f String.[] = String.[]
convert f (String.◌∷◌ c s) = String.◌∷◌ (f c) (convert f s)

abbrev pub symbol_catalog : List String
symbol_catalog = "BTCUSDT" ∷ ("ETHUSDT" ∷ ("SOLUSDT" ∷ ("BNBUSDT" ∷ ("XRPUSDT" ∷ []))))

unfoldable pub listed : String → List String → Bool
listed sym [] = false
listed sym (s ∷ ss) = s == sym || listed sym ss

unfoldable pub catalog_has : String → Bool
catalog_has sym = listed sym symbol_catalog

unfoldable pub endpoints_global : FeedEndpoints
endpoints_global = record {
  id = "global";
  label = "Global (binance.com)";
  rest_host = "https://data-api.binance.vision";
  ws_host = "wss://data-stream.binance.vision";
}

unfoldable pub endpoints_us : FeedEndpoints
endpoints_us = record {
  id = "us";
  label = "US (binance.us)";
  rest_host = "https://api.binance.us";
  ws_host = "wss://stream.binance.us:9443";
}

unfoldable pub is_blank : String → Bool
is_blank s = not (ltb 0 (len s))

-- The value of a query's parameter: what stands after the first `key=`, up to the next `&`. `find`
-- answers a number beyond the text's length where C++ answers npos.
unfoldable pub query_param : String → String → String
query_param uri key =
    let q = find uri "?" in
    let qs = slice uri (q + 1) (len uri) in
    let needle = key ++ "=" in
    let at = find qs needle in
    let rest = slice qs (at + len needle) (len qs) in
    if leb (len uri) q || ltb (len qs) at
    then ""
    else (if ltb (find rest "&") (len rest) then slice rest 0 (find rest "&") else rest)

-- `if (const char* s = std::getenv(...)) { if (*s) ... }`.
abbrev non_empty : Option String → Option String
non_empty none = none
non_empty (some s) = if is_blank s then none else some s

unfoldable pub market_of : String → MarketMode → MarketMode
market_of mode market =
    if mode == "global"
    then global
    else if mode == "us"
    then us
    else if mode == "both"
    then both
    else market

module _ {D : Type 0} where
  unfoldable pub resolve_market_mode : Config D → MarketMode
  resolve_market_mode cfg = elim cfg.market [
    | auto ↦ if ltb_ℤ (pos 0) cfg.serve_port then both else global
    | global ↦ global
    | us ↦ us
    | both ↦ both
  ]

  unfoldable pub cfg_for_market : Config D → FeedEndpoints → Config D
  cfg_for_market base ep = record base {
    rest_host = if base.rest_host_set then base.rest_host else ep.rest_host;
    ws_url = "";
    ws_url_set = false;
  }

  unfoldable pub ws_url_for : (Char → Char) → (ℤ → String) → Config D → FeedEndpoints → String
  ws_url_for tolower to_string cfg ep =
      let sym = convert tolower cfg.symbol in
      let depth = sym ++ "@depth@" ++ to_string cfg.depth_ms ++ "ms" in
      let trade = sym ++ "@trade" in
      if cfg.ws_url_set && not (is_blank cfg.ws_url)
      then cfg.ws_url
      else ep.ws_host ++ "/stream?streams=" ++ depth ++ "/" ++ trade

  unfoldable pub apply_env_overrides :
      (Char → Char) → (Char → Char) → (String → ℤ) → (String → Option String) → Config D → Config D
  apply_env_overrides tolower toupper stoi getenv c = record c {
    serve_port =
        if eqb_ℤ c.serve_port (pos 0)
        then elim (non_empty (getenv "PORT")) [ none ↦ c.serve_port | some p ↦ stoi p ]
        else c.serve_port;
    bind_host = elim (non_empty (getenv "FH_BIND")) [
      | some b ↦ b
      | none ↦
          if eqb_ℤ c.serve_port (pos 0)
          then elim (non_empty (getenv "PORT")) [ none ↦ c.bind_host | some _ ↦ "0.0.0.0" ]
          else c.bind_host
    ];
    symbol = elim (non_empty (getenv "SYMBOL")) [ none ↦ c.symbol | some s ↦ convert toupper s ];
    market = elim (getenv "MARKET") [
      | none ↦ c.market
      | some m ↦ market_of (convert tolower m) c.market
    ];
  }

unfoldable pub feeds_for_mode : MarketMode → List FeedEndpoints
feeds_for_mode us = endpoints_us ∷ []
feeds_for_mode both = endpoints_global ∷ (endpoints_us ∷ [])
feeds_for_mode auto = endpoints_global ∷ []
feeds_for_mode global = endpoints_global ∷ []
