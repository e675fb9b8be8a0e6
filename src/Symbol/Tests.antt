-- ===== src/Symbol/Tests.antt =====
-- Symbols in the forms that the venues use.
use latentspeed.Prelude.{◌≡◌, refl, [], true, false, All, arith}
use latentspeed.Prelude.Bytes.{codes, to_upper, str_eq}
use latentspeed.Symbol.{to_compact, to_hyphen}
use latentspeed.Symbol.Laws.{Plain}
use latentspeed.Symbol.Hyphen.{ccxt, to_compact-to_hyphen}

compacted :
    (to_compact (codes "eth-usdt-perp") [] ≡ codes "ETHUSDT")
    × (to_compact (codes "ETH/USDT:USDT") [] ≡ codes "ETHUSDT")
unfolding to_compact to_upper str_eq
compacted = (refl, refl)

hyphenated :
    (to_hyphen (codes "ETHUSDT") true ≡ codes "ETH-USDT-PERP")
    × (to_hyphen (codes "ETH-USDT") true ≡ codes "ETH-USDT-PERP")
    × (to_hyphen (codes "ETH-USDT-PERP") true ≡ codes "ETH-USDT-PERP")
unfolding to_hyphen to_upper
hyphenated = (refl, refl, refl)

-- The ccxt spot form is cut before the quote and keeps its slash.
slash_kept : to_hyphen (codes "ETH/USDT") false ≡ codes "ETH/-USDT"
unfolding to_hyphen to_upper
slash_kept = refl

-- On four bytes `size() - 5` wraps to npos, and the suffix is left out.
suffix_left_out : to_hyphen (codes "A-BC") true ≡ codes "A-BC"
unfolding to_hyphen
suffix_left_out = refl

eth-Plain : All Plain (codes "eth")
eth-Plain = omega arith

usdt-Plain : All Plain (codes "USDT")
usdt-Plain = omega arith

to_compact-to_hyphen_example :
    (to_compact (to_hyphen (ccxt (codes "eth") (codes "USDT") (codes "USDT")) true) []
      ≡ codes "ETHUSDT")
    × (to_compact (ccxt (codes "eth") (codes "USDT") (codes "USDT")) [] ≡ codes "ETHUSDT")
unfolding to_upper
to_compact-to_hyphen_example =
    to_compact-to_hyphen (codes "eth") (codes "USDT") (codes "USDT") [] eth-Plain usdt-Plain
