-- ===== src/Net/Ack.antt =====
-- UDPACKclient.c, UDPACKserver.c and udp_ack.h: a line is sent again until an acknowledgement
-- arrives. `unsigned long` has 64 bits.
pub mod Delivery
pub mod Network
use osh.Prelude.{
  ℕ, zero, suc, ◌+◌, ◌%◌, List, [], ◌∷◌, ◌++◌, none, some, drop, length, Bool, true, false,
  if◌then◌else◌, word,
}
use osh.Net.CString.{c_string}
use osh.Net.Line.{Run, finished, running, ◌then_run◌, checked}
use osh.Net.Stdio.{fgets}

abbrev pub data_type : ℕ
data_type = 1

abbrev pub ack_type : ℕ
ack_type = 2

abbrev pub payload_size : ℕ
payload_size = 256

abbrev pub nretries : ℕ
nretries = 10

-- A data frame as it is sent: the payload up to its NUL.
pub record DataFrame : Type 0 where
  pub mtype : ℕ
  pub mseqn : ℕ
  pub payload : List ℕ

pub record AckFrame : Type 0 where
  pub mtype : ℕ
  pub mseqn : ℕ

-- The loop over `remaining`: what is sent again, and whether the loop breaks. `ready remaining`
-- says whether select() finds a datagram in that turn.
unfoldable pub resend : ℕ → (ℕ → Bool) → DataFrame → List DataFrame × Bool
resend zero ready msg = ([], false)
resend (suc remaining) ready msg =
    let more = resend remaining ready msg in
    if ready (suc remaining) then ([], true) else (msg ∷ more.0, more.1)

-- The functions htons() and htonl() of the platform.
module _ (htons htonl : ℕ → ℕ) where
  abbrev pub frame : ℕ → List ℕ → DataFrame
  frame seqno text = record {
    mtype = htons data_type;
    mseqn = htonl seqno;
    payload = text ++ 0 ∷ [];
  }

  -- The client's loop, after `seqno` lines: what is sent, and whether it comes to the end of the
  -- input. `ready seqno remaining` answers select() for the frame with that number.
  unfoldable pub send_frames : ℕ → (ℕ → ℕ → Bool) → ℕ → List ℕ → Run (List DataFrame × Bool)
  unfolding fgets resend
  send_frames zero ready seqno input = running
  send_frames (suc fuel) ready seqno input = elim (fgets payload_size input) [
    | none ↦ finished ([], true)
    | some (line, rest) ↦ checked (c_string (line ++ 0 ∷ [])) then_run λ text.
        let seqno' = (seqno + 1) % word in
        let msg = frame seqno' text in
        let again = resend nretries (ready seqno') msg in
        let more =
          send_frames fuel ready seqno' rest then_run λ r. finished (msg ∷ again.0 ++ r.0, r.1) in
        if again.1 then more else finished (msg ∷ again.0, false)
  ]

  -- `main` of UDPACKclient.c: the status (true for a return at the end) and the frames.
  unfoldable pub ack_client :
      ℕ → Bool → Bool → (ℕ → ℕ → Bool) → List ℕ → Run (List DataFrame × Bool)
  unfolding send_frames
  ack_client fuel socket bind ready input =
      let talk = send_frames fuel ready 0 input in
      if socket then (if bind then talk else finished ([], false)) else finished ([], false)

  -- The server's loop over the frames that arrive, up to an error: the strings that it prints and
  -- the acknowledgements. `payload` keeps the bytes behind those received.
  unfoldable pub acknowledge : List DataFrame → List ℕ → Run (List (List ℕ) × List AckFrame)
  acknowledge [] payload = finished ([], [])
  acknowledge (msg ∷ msgs) payload =
      let payload' = msg.payload ++ drop (length msg.payload) payload in
      checked (c_string payload') then_run λ text. acknowledge msgs payload' then_run λ r.
      finished (text ∷ r.0, record { mtype = htons ack_type; mseqn = msg.mseqn } ∷ r.1)

  -- `main` of UDPACKserver.c, which returns only at an error
  unfoldable pub ack_server :
      Bool → Bool → List DataFrame → List ℕ → Run (List (List ℕ) × List AckFrame)
  unfolding acknowledge
  ack_server socket bind msgs payload =
      if socket
      then (if bind then acknowledge msgs payload else finished ([], []))
      else finished ([], [])
