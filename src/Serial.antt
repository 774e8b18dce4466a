-- ===== src/Serial.antt =====
-- Lines from a serial port: OnSerialReceive of etc/unix_UART.c, which collects bytes up to a newline
-- and hands the line to OnSerialMessage. A byte is a number. The system calls are parameters: how many
-- bytes FIONREAD counts, and what `read` returns.
pub mod Lines
use event_loop.Prelude.{
  ltb, ◌==◌, if◌then◌else◌, length, ℕ, Bool, true, false, not, ◌&&◌, Option, none, some, List, [],
  ◌∷◌, ◌++◌,
}

-- What `read` returns: a negative number, or bytes.
pub data SerialRead : Type 0 where
  failed : SerialRead
  got : List ℕ → SerialRead

-- A byte that has been read: the line that it ends, and what is collected, at most 250 bytes.
unfoldable pub on_serial_byte : ℕ → (m_sd_res : List ℕ) → Option (List ℕ) × List ℕ
on_serial_byte b m_sd_res =
    if ltb (length m_sd_res) 250 && not (b == 0)
    then (if b == 10 then (some (m_sd_res ++ b ∷ []), []) else (none, m_sd_res ++ b ∷ []))
    else (none, m_sd_res)

-- The loop over the bytes, with the lines in their order.
unfoldable pub on_serial_bytes : List ℕ → (m_sd_res : List ℕ) → List (List ℕ) × List ℕ
unfolding on_serial_byte
on_serial_bytes [] m_sd_res = ([], m_sd_res)
on_serial_bytes (b ∷ bs) m_sd_res =
    let (ended, collected) = on_serial_byte b m_sd_res in
    let (more, collected') = on_serial_bytes bs collected in
    (elim ended [ none ↦ more | some l ↦ l ∷ more ], collected')

-- OnSerialReceive: its result, the lines and what is collected.
unfoldable pub on_serial_receive :
    (bytes : ℕ)
    → (read_bytes : ℕ → SerialRead) → (m_sd_res : List ℕ) → Bool × List (List ℕ) × List ℕ
unfolding on_serial_bytes
on_serial_receive bytes read_bytes m_sd_res =
    if bytes == 0
    then (true, [], m_sd_res)
    else elim (read_bytes (if ltb 250 bytes then 250 else bytes)) [
      | failed ↦ (false, [], m_sd_res)
      | got input ↦
          let (ended, collected) = on_serial_bytes input m_sd_res in (true, ended, collected)
    ]

-- Calls one after the other, each with what FIONREAD counts and what `read` returns.
unfoldable pub on_serial_calls :
    List (ℕ × (ℕ → SerialRead)) → (m_sd_res : List ℕ) → List (List ℕ) × List ℕ
unfolding on_serial_receive
on_serial_calls [] m_sd_res = ([], m_sd_res)
on_serial_calls ((bytes, read_bytes) ∷ calls) m_sd_res =
    let (ok, ended, collected) = on_serial_receive bytes read_bytes m_sd_res in
    let (more, collected') = on_serial_calls calls collected in (ended ++ more, collected')
