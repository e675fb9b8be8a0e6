-- ===== src/Hyperliquid/Cancel/Laws.antt =====
-- The cancel of an order that the adapter placed.
use latentspeed.Prelude.Bytes.{Bytes, codes}
use latentspeed.Json.{Fields, end, unsigned, text}
use latentspeed.Engine.Serialize.{named}
use latentspeed.Hyperliquid.Ids.{Ids}
use latentspeed.Hyperliquid.Placement.{HlResolution}
use latentspeed.Hyperliquid.Cancel.{cancel_fields}

-- The cancel by cloid of an order of a perpetual.
unfoldable pub cloid_cancel : HlResolution → Bytes → Fields
cloid_cancel res cloid =
    cancel_fields (codes "cancelByCloid")
      (named "asset" (unsigned res.asset) (named "cloid" (text cloid) end))
