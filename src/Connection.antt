-- ===== src/Connection.antt =====
-- Connection.c: the stages of a connection, which `LiStartConnection` goes through and
-- `LiStopConnection` undoes, the choice of the RTSP port and of the packet size, and the
-- termination callback.
pub mod Stop
pub mod Stages
pub mod Start
pub mod Settings
mod Tests
use tesla_moonlight_ubuntu.Base.{
  ℕ, zero, suc, ℤ, pos, negsuc, minus, magnitude, ◌+◌, ◌-◌, ◌*◌, ◌%◌, ◌^◌, Bool, true, false, ◌&&◌,
  ◌||◌, not, Option, none, some, List, [], ◌∷◌, ◌++◌, ltb, leb, ◌==◌, if◌then◌else◌,
}

-- `STAGE_PLATFORM_INIT` is 1, and `STAGE_INPUT_STREAM_START`, the last one, is 11.
abbrev pub Stage : Type 0
Stage = ℕ

-- The calls of the listener's callbacks, the calls that undo a stage, the thread that runs the
-- client's termination callback, and the mouse events that wake the display up
pub data Action : Type 0 where
  stage_starting : Stage → Action
  stage_complete : Stage → Action
  stage_failed : Stage → (err : ℕ) → Action
  undone : Stage → Action
  mouse_move : Action
  connection_started : Action
  termination_thread : (err : ℕ) → Action

-- The static variables of the file that control the connection, with the calls so far
pub record Connection : Type 0 where
  pub stage : Stage
  pub already_terminated : Bool
  pub connection_interrupted : Bool
  pub actions : List Action

abbrev pub act : Connection → Action → Connection
act s a = record s { actions = s.actions ++ (a ∷ []) }

unfoldable pub interrupt_connection : Connection → Connection
interrupt_connection s = record s { connection_interrupted = true }

-- One `if` of `LiStopConnection`. Nothing is called for the stages of name resolution and of the
-- RTSP handshake.
abbrev pub has_cleanup : Stage → Bool
has_cleanup k = not ((k == 2) || (k == 4))

unfoldable pub undo_stage : Stage → Connection → Connection
undo_stage k s =
    if s.stage == k
    then (if has_cleanup k
        then record (act s (undone k)) { stage = s.stage - 1 }
        else record s { stage = s.stage - 1 })
    else s

-- The stages from `k` down
unfoldable pub undo_down : ℕ → Connection → Connection
unfolding undo_stage
undo_down zero s = s
undo_down (suc k) s = undo_down k (undo_stage (suc k) s)

unfoldable pub stop_connection : Connection → Connection
unfolding undo_down interrupt_connection
stop_connection s = undo_down 11 (interrupt_connection (record s { already_terminated = true }))

-- `ClInternalConnectionTerminated`
unfoldable pub connection_terminated : ℕ → Connection → Connection
connection_terminated err s =
    if s.already_terminated || s.connection_interrupted
    then s
    else act (record s { already_terminated = true }) (termination_thread err)

-- One stage of `LiStartConnection`, whose function returns `err`; the first part is the error.
unfoldable pub start_stage : Stage → (err : ℕ) → Connection → ℕ × Connection
start_stage k err s =
    let s' = act s (stage_starting k) in
    if err == 0
    then (0, act (record s' { stage = s.stage + 1 }) (stage_complete k))
    else (err, act s' (stage_failed k err))

-- The functions of the other files, with the error that each returns for its stage. The two
-- streams that `initializeVideoStream` and `initializeInputStream` set up cannot fail.
abbrev pub result_of : (ℕ → ℕ) → Stage → ℕ
result_of results k = if (k == 6) || (k == 7) then 0 else results k

-- The stages from `k` on, `n` of them, up to the first that fails
unfoldable pub start_stages : (ℕ → ℕ) → (n k : ℕ) → Connection → ℕ × Connection
unfolding start_stage
start_stages results zero k s = (0, s)
start_stages results (suc n) k s =
    let r = start_stage k (result_of results k) s in
    elim (r.0 == 0) [ true ↦ start_stages results n (suc k) r.1 | false ↦ r ]

-- `LiStartConnection` from the reset of the flags on, with the validation of its arguments as the
-- error that it leaves
abbrev greet : Connection → Connection
greet s = act (act (act s mouse_move) mouse_move) connection_started

unfoldable pub start_connection : (results : ℕ → ℕ) → (invalid : ℕ) → Connection → ℕ × Connection
unfolding start_stages stop_connection
start_connection results invalid s =
    let s0 = record s { already_terminated = false; connection_interrupted = false } in
    elim (invalid == 0) [
      | false ↦ (invalid, stop_connection s0)
      | true ↦
          let r = start_stages results 11 1 s0 in
          elim (r.0 == 0) [ true ↦ (0, greet r.1) | false ↦ (r.0, stop_connection r.1) ]
    ]

-- The error of name resolution for an RTSP port: with another port than 48010, that port twice;
-- else the ports 47984, 47989 and 48010. `resolve` is the error of each call, by its number.
unfoldable pub resolve_host : (resolve : (call port : ℕ) → ℕ) → (rtsp_port : ℕ) → ℕ
resolve_host resolve port =
    if not (port == 48010)
    then (if resolve 0 port == 0 then 0 else resolve 1 port)
    else if resolve 0 47984 == 0
    then 0
    else if resolve 1 47989 == 0
    then 0
    else resolve 2 48010

-- `parseRtspPortNumberFromUrl`: the last colon of the URL, and the number behind it
unfoldable pub behind_last_colon : List ℕ → Option (List ℕ)
behind_last_colon [] = none
behind_last_colon (c ∷ cs) = elim (behind_last_colon cs) [
  | some rest ↦ some rest
  | none ↦ if c == 58 then some cs else none
]

-- The tests `n <= 0` and `n > bound`, and the conversion to `uint16_t`
abbrev pub at_most_zero : ℤ → Bool
at_most_zero (pos n) = n == 0
at_most_zero (negsuc n) = true

abbrev pub exceeds : (bound : ℕ) → ℤ → Bool
exceeds bound (pos n) = ltb bound n
exceeds bound (negsuc n) = false

abbrev pub to_u16 : ℤ → ℕ
to_u16 (pos n) = n % 2 ^ 16
to_u16 (negsuc n) = 2 ^ 16 - 1 - n % 2 ^ 16

-- `strtol` in base 10 is a parameter. The result is `none` where the function returns false.
unfoldable pub parse_rtsp_port_number_from_url : (strtol : List ℕ → ℤ) → Option (List ℕ) → Option ℕ
unfolding behind_last_colon
parse_rtsp_port_number_from_url strtol none = none
parse_rtsp_port_number_from_url strtol (some url) = elim (behind_last_colon url) [
  | none ↦ none
  | some digits ↦
      let raw = strtol digits in
      if at_most_zero raw || exceeds 65535 raw then none else some (to_u16 raw)
]

-- The RTSP port, 48010 unless the URL has one
unfoldable pub rtsp_port : (strtol : List ℕ → ℤ) → Option (List ℕ) → ℕ
unfolding parse_rtsp_port_number_from_url
rtsp_port strtol url = elim (parse_rtsp_port_number_from_url strtol url) [
  | none ↦ 48010
  | some port ↦ port
]

-- `streamingRemotely`
pub data Remotely : Type 0 where
  local remote auto : Remotely

-- `n -= n % 16` on an `int`, where `%` rounds towards zero
abbrev pub round_to_16 : ℤ → ℤ
round_to_16 (pos n) = pos (n - n % 16)
round_to_16 (negsuc n) = minus (n + 1 - (n + 1) % 16)

-- The packet size rounded to a multiple of 16, and `none` if nothing is left, which is an error. A
-- size below zero is not refused.
unfoldable pub round_packet_size : ℤ → Option ℤ
round_packet_size n = if magnitude (round_to_16 n) == 0 then none else some (round_to_16 n)

-- The packet size once the host's address is known
unfoldable pub cap_packet_size : Remotely → (is_nat64 is_private is_ipv4 : Bool) → ℤ → Remotely × ℤ
cap_packet_size local nat64 private ipv4 n = (local, n)
cap_packet_size remote nat64 private ipv4 n = (remote, n)
cap_packet_size auto nat64 private ipv4 n =
    if not nat64 && private
    then (local, n)
    else if ipv4 || nat64
    then (remote, pos 1024)
    else (remote, pos 1184)
