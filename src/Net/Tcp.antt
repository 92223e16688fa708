-- ===== src/Net/Tcp.antt =====
-- TCPclient.c and TCPserver.c: a stream of bytes from standard input to standard output.
pub mod Transfer
pub mod Descriptors
use osh.Prelude.{
  ℕ, zero, suc, ◌+◌, List, [], ◌∷◌, ◌++◌, Bool, true, false, Option, none, some, if◌then◌else◌,
  write?, drop, length,
}
use osh.Net.CString.{c_string}
use osh.Net.Line.{Run, finished, running, ◌then_run◌, checked}
use osh.Net.Stdio.{fgets}

abbrev pub buf_size : ℕ
buf_size = 1024

-- What a process does to its descriptors and its peers: the status it returns (true for 0), the
-- descriptors that it opened and those that it closed, in order, and the bytes that it put out, in
-- the pieces of its calls.
pub record Exit : Type 0 where
  pub success : Bool
  pub opened : List ℕ
  pub closed : List ℕ
  pub output : List (List ℕ)

-- The client's loop. `whole k` says whether the k-th send() takes all the bytes it is given.
-- The results are the strings handed to send() and whether every send was whole.
unfoldable pub send_lines : ℕ → (ℕ → Bool) → ℕ → List ℕ → Run (List (List ℕ) × Bool)
unfolding fgets
send_lines zero whole k input = running
send_lines (suc fuel) whole k input = elim (fgets buf_size input) [
  | none ↦ finished ([], true)
  | some (line, rest) ↦ checked (c_string (line ++ 0 ∷ [])) then_run λ buf.
      let more = send_lines fuel whole (k + 1) rest then_run λ r. finished (buf ∷ r.0, r.1) in
      if whole k then more else finished (buf ∷ [], false)
]

-- The server's loop over what recv() gives, up to the first result that is not positive. `buf`
-- keeps what earlier calls left in it.
unfoldable pub receive_chunks : List (List ℕ) → List ℕ → Run (List (List ℕ))
receive_chunks [] buf = finished []
receive_chunks (chunk ∷ chunks) buf =
    checked (write? (chunk ++ drop (length chunk) buf) (length chunk) 0) then_run λ buf'.
    checked (c_string buf') then_run λ text.
    receive_chunks chunks buf' then_run λ out. finished (text ∷ out)

-- What the system answers to the client's calls.
pub record ClientOs : Type 0 where
  pub socket : Option ℕ
  pub connect : Bool
  pub whole : ℕ → Bool
  pub input : List ℕ

-- `main` of TCPclient.c
unfoldable pub tcp_client : ℕ → ClientOs → Run Exit
unfolding send_lines
tcp_client fuel os = elim os.socket [
  | none ↦ finished (record { success = false; opened = []; closed = []; output = [] })
  | some sfd ↦
      if os.connect
      then (send_lines fuel os.whole 0 os.input then_run λ r.
          finished (record { success = r.1; opened = sfd ∷ []; closed = sfd ∷ []; output = r.0 }))
      else finished (record { success = false; opened = sfd ∷ []; closed = sfd ∷ []; output = [] })
]

-- What the system answers to the server's calls.
pub record ServerOs : Type 0 where
  pub socket : Option ℕ
  pub setsockopt : Bool
  pub bind : Bool
  pub listen : Bool
  pub accept : Option ℕ
  pub chunks : List (List ℕ)

abbrev pub gives_up : ℕ → Run Exit
gives_up sfd =
    finished (record { success = false; opened = sfd ∷ []; closed = sfd ∷ []; output = [] })

-- from accept() on
abbrev pub serve_one : ℕ → List ℕ → ServerOs → Run Exit
serve_one sfd buf os = elim os.accept [
  | none ↦ gives_up sfd
  | some cfd ↦ receive_chunks os.chunks buf then_run λ out.
      finished
        (record { success = true; opened = sfd ∷ cfd ∷ []; closed = cfd ∷ sfd ∷ []; output = out })
]

-- `main` of TCPserver.c. `buf` is what the uninitialised array holds.
unfoldable pub tcp_server : List ℕ → ServerOs → Run Exit
unfolding receive_chunks
tcp_server buf os = elim os.socket [
  | none ↦ finished (record { success = false; opened = []; closed = []; output = [] })
  | some sfd ↦
      if os.setsockopt
      then (if os.bind
          then (if os.listen then serve_one sfd buf os else gives_up sfd)
          else gives_up sfd)
      else gives_up sfd
]
