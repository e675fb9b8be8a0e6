-- ===== src/Hyperliquid/Text.antt =====
-- The helpers on texts at the top of src/adapters/hyperliquid_adapter.cpp.
pub mod Laws
use latentspeed.Prelude.{
  ℕ, zero, suc, ◌+◌, ◌-◌, ◌*◌, ◌/◌, List, [], ◌∷◌, ◌++◌, map, Bool, true, false, not, ◌&&◌, ◌||◌,
  Option, none, some, if◌then◌else◌, ◌==◌, leb, ltb, length, drop, take,
}
use latentspeed.Prelude.Bytes.{
  Bytes, codes, str_eq, one_of, is_empty, starts_with, find as find_text, find_char, to_lower,
}

unfoldable pub is_hex_char : ℕ → Bool
is_hex_char c =
    (leb b'0' c && leb c b'9') || (leb b'a' c && leb c b'f') || (leb b'A' c && leb c b'F')

unfoldable pub all_hex : Bytes → Bool
unfolding is_hex_char
all_hex [] = true
all_hex (c ∷ s) = is_hex_char c && all_hex s

-- 0x and 32 hexadecimal digits
unfoldable pub is_valid_cloid : Bytes → Bool
unfolding starts_with all_hex
is_valid_cloid s = starts_with (codes "0x") s && (length s == 34) && all_hex (drop 2 s)

-- Seconds, nanoseconds and microseconds are told from milliseconds by their size. The product of
-- the first branch is below 2^64.
unfoldable pub normalize_epoch_ms : ℕ → ℕ
normalize_epoch_ms t =
    if t == 0
    then 0
    else if ltb t 10000000000
    then t * 1000
    else if ltb 1000000000000000 t
    then t / 1000000
    else if ltb 10000000000000 t
    then t / 1000
    else t

unfoldable pub map_tif_to_hl : Option Bytes → Bytes
map_tif_to_hl none = codes "Gtc"
map_tif_to_hl (some tif) =
    let t = map to_lower tif in
    if is_empty tif
    then codes "Gtc"
    else if one_of t ("gtc" ∷ [])
    then codes "Gtc"
    else if one_of t ("ioc" ∷ [])
    then codes "Ioc"
    else if one_of t ("po" ∷ "post_only" ∷ "postonly" ∷ "alo" ∷ [])
    then codes "Alo"
    else codes "Gtc"

-- The loop that keeps the hexadecimal digits, in lower case.
unfoldable pub hex_digits : Bytes → Bytes
unfolding is_hex_char to_lower
hex_digits [] = []
hex_digits (c ∷ s) = let rest = hex_digits s in if is_hex_char c then to_lower c ∷ rest else rest

-- std::string(n, '0')
unfoldable pub zeros : ℕ → Bytes
zeros zero = []
zeros (suc n) = b'0' ∷ zeros n

unfoldable pub strip_0x : Bytes → Bytes
unfolding starts_with
strip_0x s = if starts_with (codes "0x") s || starts_with (codes "0X") s then drop 2 s else s

unfoldable pub pad_hex32 : Bytes → Bytes
unfolding zeros
pad_hex32 out =
    if ltb (length out) 64
    then zeros (64 - length out) ++ out
    else if ltb 64 (length out)
    then drop (length out - 64) out
    else out

unfoldable pub normalize_hex32 : Bytes → Bytes
unfolding hex_digits strip_0x pad_hex32
normalize_hex32 s = codes "0x" ++ pad_hex32 (hex_digits (strip_0x s))

-- The base and the quote of BASE-QUOTE or BASE-QUOTE-SUFFIX.
unfoldable pub parse_base_quote_from_hyphen : Bytes → Bytes × Bytes
unfolding find_char
parse_base_quote_from_hyphen hyphen = elim (find_char b'-' hyphen) [
  | none ↦ (hyphen, [])
  | some first_dash ↦
      let rest = drop (first_dash + 1) hyphen in
      elim (find_char b'-' rest) [
        | none ↦ (take first_dash hyphen, rest)
        | some len ↦ (take first_dash hyphen, take len rest)
      ]
]

pub record BaseUrlParts : Type 0 where
  pub scheme : Bytes
  pub host : Bytes
  pub port : Bytes

-- Scheme, host and port of what follows the scheme, up to the first slash.
unfoldable pub split_host_port : Bytes → Bytes → BaseUrlParts
unfolding find_char
split_host_port scheme hostport = elim (find_char b':' hostport) [
  | none ↦ record {
    scheme = scheme;
    host = hostport;
    port = if str_eq scheme (codes "http") then codes "80" else codes "443";
  }
  | some colon ↦ record {
    scheme = scheme;
    host = take colon hostport;
    port = drop (colon + 1) hostport;
  }
]

unfoldable pub before_slash : Bytes → Bytes
unfolding find_char
before_slash rest = elim (find_char b'/' rest) [ none ↦ rest | some slash ↦ take slash rest ]

unfoldable pub parse_base_url : Bytes → BaseUrlParts
unfolding before_slash split_host_port find_text
parse_base_url url = elim (find_text (codes "://") url) [
  | none ↦ split_host_port (codes "https") (before_slash url)
  | some pos ↦ split_host_port (take pos url) (before_slash (drop (pos + 3) url))
]

-- The digits from the first that is not 0, signs, points and other characters apart.
unfoldable pub count_sig_figs_from : Bool → Bytes → ℕ
count_sig_figs_from seen [] = 0
count_sig_figs_from seen (c ∷ s) =
    let leading = count_sig_figs_from false s in
    let counted = count_sig_figs_from true s in
    let same = if seen then counted else leading in
    if leb b'0' c && leb c b'9'
    then if not seen && (c == b'0') then leading else suc counted
    else same

unfoldable pub count_sig_figs : Bytes → ℕ
unfolding count_sig_figs_from
count_sig_figs s = count_sig_figs_from false s
