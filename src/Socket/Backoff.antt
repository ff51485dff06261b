-- ===== src/Socket/Backoff.antt =====
-- `reconnect`, called again and again over the life of a connection.
use qode.Base.{
  ℕ, zero, suc, ◌+◌, ◌*◌, ◌^◌, ◌≤◌, ◌<◌, ◌≡◌, refl, ap, ◌∙◌, Bool, false, not, ◌&&◌, ◌==◌, if-elim,
  List, [], ◌∷◌, length, le→leb, gt→leb, min, arith, u32, if◌then◌else◌, dec_le,
}
use native.Mathlib.Nat.{pow-suc, pow-le-pow_right}
use qode.Socket.{
  Socket, Dial, is_refused, is_writable, init_event_system, connect, do_connect, reconnect,
  max_retry_count,
}

-- Calls one after another.
pub reconnect_all : List Dial → Socket → Socket
reconnect_all [] s = s
reconnect_all (d ∷ dials) s = reconnect_all dials (reconnect d s).2

-- The next sleep is a power of two times 100 ms, at most doubled with each attempt.
pub record IsRetrying (s : Socket) : Type 0 where
  pub attempts : s.reconnect_count ≤ max_retry_count
  pub backoff : s.current_backoff_ms ≤ 100 * 2 ^ s.reconnect_count

-- Every call of `do_connect` succeeds.
unfoldable pub succeeds : Dial → Bool
succeeds d =
    d.resolved
    && d.opened
    && not (is_refused d.connect_result)
    && is_writable d.poll_result
    && (d.socket_error == 0)
    && d.registered

-- There is a connection or no descriptor is left open.
do_connect_lem :
    (d : Dial) (s : Socket)
    → do_connect d s ≡ (succeeds d, record s { has_fd = succeeds d; connected = succeeds d })
unfolding do_connect succeeds
do_connect_lem d s = ground arith

abbrev pub tried : Bool → Socket → Socket
tried ok s = record s {
  has_fd = ok;
  connected = ok;
  reconnect_count = s.reconnect_count + 1;
  current_backoff_ms = if ok then 100 else min (u32 (s.current_backoff_ms * 2)) 30000;
}

pub reconnect_refused :
    (d : Dial) (s : Socket) → max_retry_count ≤ s.reconnect_count → reconnect d s ≡ (false, 0, s)
unfolding reconnect
reconnect_refused d s h = rw (le→leb 5 s.reconnect_count h) refl

pub reconnect-tried :
    (d : Dial) (s : Socket)
    → s.reconnect_count < max_retry_count
    → reconnect d s ≡ (succeeds d, s.current_backoff_ms, tried (succeeds d) s)
unfolding reconnect
reconnect-tried d s h = rw (gt→leb 5 s.reconnect_count h, do_connect_lem) (ground arith)

two_pow_pos : (k : ℕ) → 1 ≤ 2 ^ k
two_pow_pos zero = omega arith
two_pow_pos (suc k) = omega (arith, pow-suc 2 k, two_pow_pos k)

tried-IsRetrying :
    (ok : Bool) (s : Socket)
    → IsRetrying s
    → s.reconnect_count < max_retry_count
    → IsRetrying (tried ok s)
tried-IsRetrying ok s v h = record {
  attempts = omega arith;
  backoff =
      let double : 2 ^ (s.reconnect_count + 1) ≡ 2 ^ s.reconnect_count * 2 =
        ap (λ k. 2 ^ k) (let e : s.reconnect_count + 1 ≡ suc s.reconnect_count = omega arith in e)
        ∙ pow-suc 2 s.reconnect_count in
      ground (arith, v.backoff, double, two_pow_pos s.reconnect_count);
}

reconnect-IsRetrying : (d : Dial) (s : Socket) → IsRetrying s → IsRetrying (reconnect d s).2
reconnect-IsRetrying d s v = elim (dec_le max_retry_count s.reconnect_count) [
  | yes full ↦ rw (reconnect_refused d s full) v
  | no more ↦
      rw (reconnect-tried d s (omega arith)) (tried-IsRetrying (succeeds d) s v (omega arith))
]

reconnect-count :
    (d : Dial) (s : Socket)
    → IsRetrying s
    → (reconnect d s).2.reconnect_count ≡ min max_retry_count (s.reconnect_count + 1)
reconnect-count d s v = elim (dec_le max_retry_count s.reconnect_count) [
  | yes full ↦ rw (reconnect_refused d s full) (omega (arith, v.attempts))
  | no more ↦ rw (reconnect-tried d s (omega arith)) (omega arith)
]

reconnect_all-lem :
    (dials : List Dial) (s : Socket)
    → IsRetrying s
    → IsRetrying (reconnect_all dials s)
      × ((reconnect_all dials s).reconnect_count
          ≡ min max_retry_count (s.reconnect_count + length dials))
unfolding reconnect_all
reconnect_all-lem [] s v = (v, omega (arith, v.attempts))
reconnect_all-lem (d ∷ dials) s v =
    let (w, e) = reconnect_all-lem dials (reconnect d s).2 (reconnect-IsRetrying d s v) in
    (w, omega (arith, e, reconnect-count d s v))

init_event_system-IsRetrying :
    (ok : Bool) (s : Socket) → IsRetrying s → IsRetrying (init_event_system ok s).1
unfolding init_event_system
init_event_system-IsRetrying ok s v =
    if-elim (λ (x : Bool × Socket). IsRetrying x.1) s.has_events (λ _. v)
      (λ _. record { attempts = v.attempts; backoff = v.backoff })

do_connect-IsRetrying : (d : Dial) (s : Socket) → IsRetrying s → IsRetrying (do_connect d s).1
do_connect-IsRetrying d s v =
    rw (do_connect_lem d s) (record { attempts = v.attempts; backoff = v.backoff })

connect-IsRetrying :
    (events_ok : Bool) (d : Dial) (s : Socket) → IsRetrying (connect events_ok d s).1
unfolding connect
connect-IsRetrying events_ok d s =
    let fresh : Socket = record s { reconnect_count = 0; current_backoff_ms = 100 } in
    let r = init_event_system events_ok fresh in
    let v =
      init_event_system-IsRetrying events_ok fresh
        (record { attempts = omega arith; backoff = omega arith }) in
    if-elim (λ (x : Bool × Socket). IsRetrying x.1) r.0 (λ _. do_connect-IsRetrying d r.1 v)
      (λ _. v)

-- After `connect` and five reconnections, whether they succeeded or not, every further one is
-- refused: it does not sleep and changes nothing.
pub reconnect_exhausted :
    (events_ok : Bool) (d again : Dial) (s : Socket) (dials : List Dial)
    → max_retry_count ≤ length dials
    → let s' = reconnect_all dials (connect events_ok d s).1 in reconnect again s' ≡ (false, 0, s')
reconnect_exhausted events_ok d again s dials h =
    let s0 = (connect events_ok d s).1 in
    reconnect_refused again (reconnect_all dials s0)
      (omega (arith, (reconnect_all-lem dials s0 (connect-IsRetrying events_ok d s)).1))

reconnect_bounded : (d : Dial) (s : Socket) → IsRetrying s → (reconnect d s).1 ≤ 1600
reconnect_bounded d s v = elim (dec_le max_retry_count s.reconnect_count) [
  | yes full ↦ rw (reconnect_refused d s full) (omega arith)
  | no more ↦ rw (reconnect-tried d s (omega arith)) (
      omega (
        arith,
        v.backoff,
        (let e : 2 ^ s.reconnect_count ≤ 2 ^ 4 =
              pow-le-pow_right {n = 2} (omega arith) {i = s.reconnect_count} {j = 4}
                (omega arith) in
            e),
      ))
]

-- After `connect` no reconnection sleeps longer than 1600 ms.
pub reconnect_sleep :
    (events_ok : Bool) (d again : Dial) (s : Socket) (dials : List Dial)
    → (reconnect again (reconnect_all dials (connect events_ok d s).1)).1 ≤ 1600
reconnect_sleep events_ok d again s dials =
    let s0 = (connect events_ok d s).1 in
    reconnect_bounded again (reconnect_all dials s0)
      (reconnect_all-lem dials s0 (connect-IsRetrying events_ok d s)).0
