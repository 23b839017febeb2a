-- ===== src/Connection/Settings.antt =====
-- What `LiStartConnection` makes of the RTSP port in a URL, and of the packet size it is given.
use tesla_moonlight_ubuntu.Base.{
  sym, ◌∙◌, if_false, minus, magnitude-minus, minus_negative, if_true, holds_if, ℕ, ℤ, pos, negsuc,
  magnitude, is_negative, ◌+◌, ◌-◌, ◌%◌, ◌^◌, ◌≤◌, ◌<◌, ◌≡◌, refl, ◌⊎◌, inl, inr, Bool, true, false,
  ◌||◌, Option, none, some, List, arith, ◌==◌, if◌then◌else◌, Bool-cases,
}
use tesla_moonlight_ubuntu.Connection.{
  at_most_zero, exceeds, to_u16, behind_last_colon, parse_rtsp_port_number_from_url, rtsp_port,
  Remotely, local, remote, auto, round_to_16, round_packet_size, cap_packet_size,
}

-- The number `n` behind the last colon of the URL
abbrev pub IsNumberOf : (List ℕ → ℤ) → Option (List ℕ) → ℕ → Type 0
IsNumberOf strtol url n =
    (text digits : List ℕ) × (url ≡ some text)
    × (behind_last_colon text ≡ some digits)
    × (strtol digits ≡ pos n)

-- A number that passes the tests is the port.
raw-Ranged :
    (raw : ℤ)
    → (at_most_zero raw || exceeds 65535 raw) ≡ false
    → (0 < to_u16 raw) × (to_u16 raw < 65536) × (raw ≡ pos (to_u16 raw))
raw-Ranged (pos n) h =
    let a : 0 < n = ground (arith, h) in
    let b : n < 65536 = ground (arith, h) in
    let e : n % 2 ^ 16 ≡ n = omega arith in (omega arith, omega arith, rw e refl)
raw-Ranged (negsuc n) h = cc

-- Whatever the URL, the RTSP port is a port number other than 0, and it is either 48010 or, with
-- nothing cut off, the number that `strtol` reads behind the last colon of the URL.
pub rtsp_port_in_range :
    (strtol : List ℕ → ℤ) (url : Option (List ℕ))
    → (0 < rtsp_port strtol url)
      × (rtsp_port strtol url < 65536)
      × ((rtsp_port strtol url ≡ 48010) ⊎ IsNumberOf strtol url (rtsp_port strtol url))
unfolding rtsp_port parse_rtsp_port_number_from_url
rtsp_port_in_range strtol none = (omega arith, omega arith, inl refl)
rtsp_port_in_range strtol (some url) = found (behind_last_colon url) refl
  where
    port_of : Option ℕ → ℕ
    port_of o = elim o [ none ↦ 48010 | some port ↦ port ]

    Fits : Option ℕ → Type 0
    Fits o =
        (0 < port_of o)
        × (port_of o < 65536)
        × ((port_of o ≡ 48010) ⊎ IsNumberOf strtol (some url) (port_of o))

    found :
        (o : Option (List ℕ))
        → behind_last_colon url ≡ o
        → Fits (elim o [
          | none ↦ none
          | some digits ↦
              let raw = strtol digits in
              if at_most_zero raw || exceeds 65535 raw then none else some (to_u16 raw)
        ])
    found none e = (omega arith, omega arith, inl refl)
    found (some digits) e =
        holds_if Fits (at_most_zero (strtol digits) || exceeds 65535 (strtol digits)) none
          (some (to_u16 (strtol digits))) (λ b. (omega arith, omega arith, inl refl))
          (λ b. let r = raw-Ranged (strtol digits) b in (r.0, r.1, inr (url, digits, refl, e, r.2)))

-- A packet size that can be used is not 0 and divides by 16.
abbrev pub IsUsable : ℤ → Type 0
IsUsable n = (0 < magnitude n) × (magnitude n % 16 ≡ 0)

-- `m` is `n` rounded towards zero, by at most 15, on the same side of zero.
abbrev pub IsRounded : (n m : ℤ) → Type 0
IsRounded n m =
    (is_negative m ≡ is_negative n) × (magnitude m ≤ magnitude n) × (magnitude n < magnitude m + 16)

-- A size is replaced for a remote host only, and by one of two sizes.
abbrev pub IsCapped : (m : ℤ) → Remotely × ℤ → Type 0
IsCapped m r = (r.1 ≡ m) ⊎ ((r.0 ≡ remote) × ((r.1 ≡ pos 1024) ⊎ (r.1 ≡ pos 1184)))

round_to_16-IsUsable :
    (n : ℤ)
    → (magnitude (round_to_16 n) == 0) ≡ false
    → IsUsable (round_to_16 n) × IsRounded n (round_to_16 n)
round_to_16-IsUsable (pos n) h =
    let a : 0 < n - n % 16 = ground (arith, h) in
    ((a, omega arith), (refl, omega arith, omega arith))
round_to_16-IsUsable (negsuc n) h =
    let a : 0 < magnitude (minus (n + 1 - (n + 1) % 16)) = ground (arith, h) in
    let e = magnitude-minus (n + 1 - (n + 1) % 16) in
    (
      (a, omega (arith, e)),
      (
        minus_negative (n + 1 - (n + 1) % 16) (omega (arith, e)),
        omega (arith, e),
        omega (arith, e),
      ),
    )

cap_packet_size-IsUsable :
    (m : ℤ) (route : Remotely) (is_nat64 is_private is_ipv4 : Bool)
    → IsUsable m
    → IsUsable (cap_packet_size route is_nat64 is_private is_ipv4 m).1
      × IsCapped m (cap_packet_size route is_nat64 is_private is_ipv4 m)
unfolding cap_packet_size
cap_packet_size-IsUsable m local nat64 private ipv4 u = (u, inl refl)
cap_packet_size-IsUsable m remote nat64 private ipv4 u = (u, inl refl)
cap_packet_size-IsUsable m auto true private true u = ((omega arith, refl), inr (refl, inl refl))
cap_packet_size-IsUsable m auto true private false u = ((omega arith, refl), inr (refl, inl refl))
cap_packet_size-IsUsable m auto false true ipv4 u = (u, inl refl)
cap_packet_size-IsUsable m auto false false true u = ((omega arith, refl), inr (refl, inl refl))
cap_packet_size-IsUsable m auto false false false u = ((omega arith, refl), inr (refl, inr refl))

-- A packet size that is accepted, above zero or below, is the one asked for rounded towards zero by
-- at most 15, is not 0 and divides by 16. The size that is used is this one or, for a host found to
-- be remote, 1024 or 1184, so it is not 0 and divides by 16 as well.
pub packet_size-IsUsable :
    (n m : ℤ) (route : Remotely) (is_nat64 is_private is_ipv4 : Bool)
    → round_packet_size n ≡ some m
    → IsUsable m
      × IsRounded n m
      × IsUsable (cap_packet_size route is_nat64 is_private is_ipv4 m).1
      × IsCapped m (cap_packet_size route is_nat64 is_private is_ipv4 m)
unfolding round_packet_size
packet_size-IsUsable n m route nat64 private ipv4 h =
    elim (Bool-cases (magnitude (round_to_16 n) == 0)) [
      | inl zero ↦ cc (if_true none (some (round_to_16 n)) zero)
      | inr more ↦
          let kept : some (round_to_16 n) ≡ some m =
            sym (if_false none (some (round_to_16 n)) more) ∙ h in
          let e : m ≡ round_to_16 n = cc kept in
          let r = round_to_16-IsUsable n more in
          rw e (
            let c = cap_packet_size-IsUsable (round_to_16 n) route nat64 private ipv4 r.0 in
            (r.0, r.1, c.0, c.1))
    ]
