-- ===== src/LogServer.antt =====
-- The packets of the log server, etc/ns_log_server.c: requests end with a byte 0, and what arrives of
-- them on a connection may be cut anywhere. A byte is a number. countNullCharOnStream and
-- isTerminatedRequestStr are functions from outside of the repository, the parameters `count` and
-- `is_terminated`. The result is `none` where the C code reads behind what has arrived or uses a
-- connection that is not there.
pub mod Split
pub mod Packets
use mathlib.Core.Option
use event_loop.LogFile.Lines.{text}
use event_loop.Prelude.{
  ltb, leb, ◌==◌, if◌then◌else◌, length, take, drop, ℕ, zero, suc, Bool, true, false, ◌&&◌, ◌||◌,
  Option, none, some, List, [], ◌∷◌, ◌++◌, map,
}

-- `sizeof(cp->tcpBuf)`
abbrev pub tcp_buf_size : ℕ
tcp_buf_size = 32000000

-- What a request leads to: the service for JSON, with whether its answer ends with a byte 0, or an
-- answer that is sent.
pub data Reply : Type 0 where
  service : (text : List ℕ) → (append_null : Bool) → Reply
  pong : Reply
  echo : (text : List ℕ) → Reply

-- `memcmp` on the bytes that have arrived.
unfoldable pub begins : (prefix text : List ℕ) → Bool
begins [] text = true
begins (p ∷ ps) [] = false
begins (p ∷ ps) (b ∷ bs) = p == b && begins ps bs

-- OnTCPLogServDataReceived and OnUDPLogServDataReceived: `{`, `[` and PING
unfoldable pub on_data : (append_null : Bool) → List ℕ → Reply
unfolding begins
on_data append_null text =
    if begins (123 ∷ []) text || begins (91 ∷ []) text
    then service text append_null
    else if begins (80 ∷ 73 ∷ 78 ∷ 71 ∷ []) text
    then pong
    else echo text

-- `strlen`
unfoldable pub find_null : List ℕ → Option ℕ
find_null [] = none
find_null (b ∷ bs) = if b == 0 then some 0 else Option.map suc (find_null bs)

-- How the loop over the packets ends: what is left of the input behind them, or that a packet did not
-- fit into the buffer.
pub data Left : Type 0 where
  remaining : List ℕ → Left
  overflow : Left

-- NS_ACCEPT, NS_CLOSE, NS_RECV and the rest.
pub data Event : Type 0 where
  ns_accept ns_close ns_other : Event
  ns_recv : (input : List ℕ) → Event

module _ (count : List ℕ → ℕ) (is_terminated : List ℕ → Bool) where
  -- The loop, for `numNull-idxNull` further packets; the buffer is empty but in the first round.
  unfoldable pub packets : (n : ℕ) → (input buf : List ℕ) → Option (List Reply × Left)
  unfolding on_data find_null
  packets zero input buf = some ([], remaining input)
  packets (suc n) input buf = elim (find_null input) [
    | none ↦ none
    | some i ↦
        let text = buf ++ take (suc i) input in
        if ltb tcp_buf_size (length text)
        then some ([], overflow)
        else elim (if length (drop (suc i) input) == 0
            then some ([], remaining [])
            else packets n (drop (suc i) input) []) [
              | none ↦ none
              | some (replies, left) ↦
                  some (if is_terminated text then on_data true text ∷ replies else replies, left)
            ]
  ]

  -- NS_RECV: the requests that are complete, and the buffer.
  unfoldable pub receive : (buf input : List ℕ) → Option (List Reply × List ℕ)
  unfolding packets
  receive buf input = elim (leb 1 (count input)) [
    | true ↦ elim (packets (count input) input buf) [
      | none ↦ none
      | some (replies, overflow) ↦ some (replies, [])
      | some (replies, remaining rest) ↦
          some (replies, if ltb tcp_buf_size (length rest) then [] else rest)
    ]
    | false ↦
        if ltb tcp_buf_size (length (buf ++ input))
        then some ([], [])
        else if is_terminated (buf ++ input)
        then some (on_data true (buf ++ input) ∷ [], [])
        else some ([], buf ++ input)
  ]

  -- logServ_TCP_ev_handler; the buffer is there while the connection is.
  unfoldable pub tcp_ev_handler : Event → Option (List ℕ) → Option (List Reply × Option (List ℕ))
  unfolding receive
  tcp_ev_handler ns_accept conn = some ([], some [])
  tcp_ev_handler ns_close conn = some ([], none)
  tcp_ev_handler ns_other conn = some ([], conn)
  tcp_ev_handler (ns_recv input) none = none
  tcp_ev_handler (ns_recv input) (some buf) = elim (receive buf input) [
    | none ↦ none
    | some (replies, buf') ↦ some (replies, some buf')
  ]

  -- Events one after the other, with the replies to all.
  unfoldable pub tcp_events : List Event → Option (List ℕ) → Option (List Reply × Option (List ℕ))
  unfolding tcp_ev_handler
  tcp_events [] conn = some ([], conn)
  tcp_events (ev ∷ evs) conn = elim (tcp_ev_handler ev conn) [
    | none ↦ none
    | some (replies, conn') ↦ elim (tcp_events evs conn') [
      | none ↦ none
      | some (replies', conn'') ↦ some (replies ++ replies', conn'')
    ]
  ]

-- logServ_UDP_ev_handler on NS_RECV: a datagram is a request.
unfoldable pub udp_receive : List ℕ → Reply
unfolding on_data
udp_receive input = on_data false input
