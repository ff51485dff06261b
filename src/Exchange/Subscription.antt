-- ===== src/Exchange/Subscription.antt =====
-- What the client's `send_subscription` writes, the exchange's `process_subscription` reads.
use qode.Base.{
  ℕ, ◌+◌, ◌*◌, ◌^◌, ◌≤◌, ◌<◌, ◌≡◌, refl, ap, ap₂, ◌∙◌, true, not, ◌&&◌, ◌||◌, none, some, List, [],
  ◌∷◌, leb, ◌==◌, if◌then◌else◌, length, take, drop, slice, get_or, u16, arith, length-append,
  length-take, le→leb, gt→leb, take_all, slice-take, dec_le,
}
use qode.Protocol.Bytes.{to_le, from_le, from_le-to_le, length-to_le}
use qode.Socket.{symbol_bytes, subscription_bytes, received}
use qode.Clients.{ClientManager, get_client}
use qode.Clients.Entries.{ClientConnection, is_receiver, member}
use qode.Clients.Lookup.{handle_subscription_lem}
use qode.Exchange.{
  read_symbols, parse_subscription, process_subscription, handle_request, request_buffer_size,
}

-- Symbol ids are 16 bits wide.
unfoldable pub AreSymbols : List ℕ → Type 0
AreSymbols [] = Unit {0}
AreSymbols (id ∷ ids) = (id < 2 ^ 16) × AreSymbols ids

length-symbol_bytes : (ids : List ℕ) → length (symbol_bytes ids) ≡ 2 * length ids
unfolding symbol_bytes
length-symbol_bytes [] = omega arith
length-symbol_bytes (id ∷ ids) = omega (
  arith,
  length-append (to_le 2 id) (symbol_bytes ids),
  length-to_le 2 id,
  length-symbol_bytes ids,
)

length-subscription_bytes : (ids : List ℕ) → length (subscription_bytes ids) ≡ 3 + 2 * length ids
unfolding subscription_bytes
length-subscription_bytes ids = omega (
  arith,
  length-append (to_le 2 (u16 (length ids))) (symbol_bytes ids),
  length-to_le 2 (u16 (length ids)),
  length-symbol_bytes ids,
)

read_symbols-symbol_bytes :
    (ids : List ℕ) → AreSymbols ids → read_symbols (length ids) (symbol_bytes ids) ≡ ids
unfolding read_symbols symbol_bytes AreSymbols to_le
read_symbols-symbol_bytes [] v = refl
read_symbols-symbol_bytes (id ∷ ids) v =
    ap₂ (λ x xs. x ∷ xs) (from_le-to_le 2 id v.0) (read_symbols-symbol_bytes ids v.1)

count-subscription_bytes :
    (ids : List ℕ) → length ids < 2 ^ 16 → from_le (slice 1 2 (subscription_bytes ids)) ≡ length ids
unfolding subscription_bytes to_le
count-subscription_bytes ids h =
    from_le-to_le 2 (u16 (length ids)) (omega arith)
    ∙ (let e : u16 (length ids) ≡ length ids = omega arith in e)

body-subscription_bytes :
    (ids : List ℕ)
    → AreSymbols ids
    → read_symbols (length ids) (drop 3 (subscription_bytes ids)) ≡ ids
unfolding subscription_bytes to_le
body-subscription_bytes ids v = read_symbols-symbol_bytes ids v

-- The checks, for bytes with the command and a count in front.
parse_subscription_long :
    (bs : List ℕ)
    → get_or bs 0 0 ≡ 255
    → 3 ≤ length bs
    → 3 + from_le (slice 1 2 bs) * 2 ≤ length bs
    → parse_subscription bs ≡ some (read_symbols (from_le (slice 1 2 bs)) (drop 3 bs))
unfolding parse_subscription
parse_subscription_long bs c h k = ground arith

parse_subscription_short :
    (bs : List ℕ) → length bs < 3 + from_le (slice 1 2 bs) * 2 → parse_subscription bs ≡ none
unfolding parse_subscription
parse_subscription_short bs h = ground arith

-- A request for at most 510 symbols is read as it was sent; of a longer one only the first 1024
-- bytes are received, and it is not accepted.
parse_subscription-subscription_bytes :
    (ids : List ℕ)
    → AreSymbols ids
    → length ids < 2 ^ 16
    → parse_subscription (take request_buffer_size (subscription_bytes ids))
      ≡ (if leb (length ids) 510 then some ids else none)
parse_subscription-subscription_bytes ids v h = elim (dec_le (length ids) 510) [
  | yes fits ↦
      rw
        (
          take_all 1024 (subscription_bytes ids) (omega (arith, length-subscription_bytes ids)),
          le→leb (length ids) 510 fits,
        )
        (parse_subscription_long (subscription_bytes ids) (unfold subscription_bytes in refl)
            (omega (arith, length-subscription_bytes ids))
            (omega (arith, length-subscription_bytes ids, count-subscription_bytes ids h))
          ∙ ap some (
              ap (λ n. read_symbols n (drop 3 (subscription_bytes ids)))
                (count-subscription_bytes ids h)
              ∙ body-subscription_bytes ids v))
  | no long ↦ rw (gt→leb (length ids) 510 (omega arith)) (
      parse_subscription_short (take 1024 (subscription_bytes ids)) (
        omega (
          arith,
          length-take 1024 (subscription_bytes ids),
          length-subscription_bytes ids,
          count-subscription_bytes ids h,
          ap from_le (slice-take 1 2 1024 (subscription_bytes ids) (omega arith)),
        )))
]

-- When the request of a known client arrives whole, at most 510 symbols of 16 bits, the client gets
-- what it asked for: each symbol that it named, or all of them if it named none, unless it is slow.
pub process_subscription-is_receiver :
    (fd : ℕ) (ids : List ℕ) (m : ClientManager) (c : ClientConnection)
    → AreSymbols ids
    → length ids ≤ 510
    → get_client fd m ≡ some c
    → let r =
        process_subscription fd (received (take request_buffer_size (subscription_bytes ids))) m in
      (r.0 ≡ true)
      × ((c' : ClientConnection) × (get_client fd r.1 ≡ some c')
          × ((id : ℕ) → is_receiver id c' ≡ (not c.is_slow && (length ids == 0 || member id ids))))
unfolding process_subscription handle_request
process_subscription-is_receiver fd ids m c v h found =
    rw (parse_subscription-subscription_bytes ids v (omega arith), le→leb (length ids) 510 h)
      (refl, (handle_subscription_lem fd ids m c found).1)
