-- ===== src/Net/Ack/Network.antt =====
-- The loops of UDPACKclient.c and UDPACKserver.c side by side, call by call, on a network that may
-- lose, delay and reorder what it carries, but does not repeat it.
pub mod Server
pub mod Fair
pub mod Success
pub mod Stale
pub mod Progress
pub mod Onwards
pub mod Client
pub mod Chosen
use osh.Prelude.{
  ℕ, suc, ◌+◌, ◌%◌, ◌≡◌, List, [], ◌∷◌, ◌++◌, Bool, true, false, none, some, drop, length, word,
}
use osh.Net.CString.{c_string}
use osh.Net.Stdio.{fgets}
use osh.Net.Ack.{ack_type, payload_size, nretries, DataFrame, AckFrame, frame}

-- Where the client is: at fgets(); at the test of `remaining`, with the frame that it sends; at
-- recv(); or behind its return, with success or -1.
pub data Phase : Type 0 where
  fetching : Phase
  selecting : ℕ → DataFrame → Phase
  receiving : Phase
  returned : Bool → Phase

-- The client's unread input, its number and its socket's queue; the frames under way; the server's
-- array and what it has printed; and the acknowledgements under way.
pub record Link : Type 0 where
  pub input : List ℕ
  pub seqno : ℕ
  pub phase : Phase
  pub inbox : List AckFrame
  pub frames : List DataFrame
  pub payload : List ℕ
  pub printed : List (List ℕ)
  pub acks : List AckFrame

-- both programs at their loops
abbrev pub opening : List ℕ → List ℕ → Link
opening input payload = record {
  input = input;
  seqno = 0;
  phase = fetching;
  inbox = [];
  frames = [];
  payload = payload;
  printed = [];
  acks = [];
}

-- `payload` once a frame has been received: the bytes behind it stay.
abbrev pub filled : DataFrame → List ℕ → List ℕ
filled msg payload = msg.payload ++ drop (length msg.payload) payload

module _ (htons htonl : ℕ → ℕ) where
  -- `ack` for a frame
  abbrev pub ack_of : DataFrame → AckFrame
  ack_of msg = record { mtype = htons ack_type; mseqn = msg.mseqn }

  -- One step of the client, of the server or of the network. select() does not fail, and times out
  -- only on an empty queue.
  pub data Move : Link → Link → Type 0 where
    fetches :
        (p : Link) (line rest text : List ℕ)
        → p.phase ≡ fetching
        → fgets payload_size p.input ≡ some (line, rest)
        → c_string (line ++ 0 ∷ []) ≡ some text
        → Move p (record p {
          input = rest;
          seqno = (p.seqno + 1) % word;
          phase = selecting nretries (frame htons htonl ((p.seqno + 1) % word) text);
          frames = frame htons htonl ((p.seqno + 1) % word) text ∷ p.frames;
        })
    ends :
        (p : Link)
        → p.phase ≡ fetching
        → fgets payload_size p.input ≡ none
        → Move p (record p { phase = returned true })
    times_out :
        (p : Link) (remaining : ℕ) (msg : DataFrame)
        → p.phase ≡ selecting (suc remaining) msg
        → p.inbox ≡ []
        → Move p (record p { phase = selecting remaining msg; frames = msg ∷ p.frames })
    answers :
        (p : Link) (remaining : ℕ) (msg : DataFrame) (ack : AckFrame) (inbox' : List AckFrame)
        → p.phase ≡ selecting (suc remaining) msg
        → p.inbox ≡ ack ∷ inbox'
        → Move p (record p { phase = receiving })
    gives_up :
        (p : Link) (msg : DataFrame)
        → p.phase ≡ selecting 0 msg
        → Move p (record p { phase = returned false })
    receives :
        (p : Link) (ack : AckFrame) (inbox' : List AckFrame)
        → p.phase ≡ receiving
        → p.inbox ≡ ack ∷ inbox'
        → Move p (record p { phase = fetching; inbox = inbox' })
    serves :
        (p : Link) (before after : List DataFrame) (msg : DataFrame) (text : List ℕ)
        → p.frames ≡ before ++ msg ∷ after
        → c_string (filled msg p.payload) ≡ some text
        → Move p (record p {
          frames = before ++ after;
          payload = filled msg p.payload;
          printed = p.printed ++ text ∷ [];
          acks = ack_of msg ∷ p.acks;
        })
    arrives :
        (p : Link) (before after : List AckFrame) (ack : AckFrame)
        → p.acks ≡ before ++ ack ∷ after
        → Move p (record p { acks = before ++ after; inbox = p.inbox ++ ack ∷ [] })
    loses_frame :
        (p : Link) (before after : List DataFrame) (msg : DataFrame)
        → p.frames ≡ before ++ msg ∷ after
        → Move p (record p { frames = before ++ after })
    loses_ack :
        (p : Link) (before after : List AckFrame) (ack : AckFrame)
        → p.acks ≡ before ++ ack ∷ after
        → Move p (record p { acks = before ++ after })

  pub data Moves (p : Link) : Link → Type 0 where
    stay : Moves p p
    further : (q r : Link) → Moves p q → Move q r → Moves p r

  -- the lines that a step takes from the input
  abbrev pub fetched_by : {p q : Link} → Move p q → List (List ℕ)
  fetched_by (fetches p line rest text at e t) = text ∷ []
  fetched_by _ = []

  abbrev pub fetched : {p q : Link} → Moves p q → List (List ℕ)
  fetched stay = []
  fetched (further q r run move) = fetched run ++ fetched_by move
