-- ===== src/Net/Tcp/Descriptors.antt =====
-- The descriptors that the TCP programs open and close.
use osh.Prelude.{ℕ, ◌≡◌, refl, List, Bool, true, false, if◌then◌else◌, Option-cases, inl, inr}
use mathlib.Core.List.{reverse}
use osh.Net.Line.{Run, finished, faulted, running, ◌then_run◌}
use osh.Net.Tcp.{
  serve_one, gives_up, Exit, ClientOs, ServerOs, send_lines, receive_chunks, tcp_client, tcp_server,
}

-- A run that returns has closed what it opened, the last first.
abbrev pub IsBalanced : Run Exit → Type 0
IsBalanced (finished e) = e.closed ≡ reverse e.opened
IsBalanced faulted = Unit
IsBalanced running = Unit

if-IsBalanced :
    (b : Bool) (x y : Run Exit) → IsBalanced x → IsBalanced y → IsBalanced (if b then x else y)
if-IsBalanced true x y hx hy = hx
if-IsBalanced false x y hx hy = hy

run-IsBalanced {ℓ} :
    {A : Type ℓ} (m : Run A) (f : A → Run Exit)
    → ((a : A) → IsBalanced (f a))
    → IsBalanced (m then_run f)
run-IsBalanced (finished a) f h = h a
run-IsBalanced faulted f h = tt
run-IsBalanced running f h = tt

tcp_client-IsBalanced : (fuel : ℕ) (os : ClientOs) → IsBalanced (tcp_client fuel os)
unfolding tcp_client
tcp_client-IsBalanced fuel os = elim (Option-cases os.socket) [
  | inl e ↦ rw e refl
  | inr (sfd, e) ↦ rw e (
      if-IsBalanced os.connect _ _
        (run-IsBalanced (send_lines fuel os.whole 0 os.input) _ (λ r. refl)) refl)
]

serve_one-IsBalanced : (sfd : ℕ) (buf : List ℕ) (os : ServerOs) → IsBalanced (serve_one sfd buf os)
serve_one-IsBalanced sfd buf os = elim (Option-cases os.accept) [
  | inl e ↦ rw e refl
  | inr (cfd, e) ↦ rw e (run-IsBalanced (receive_chunks os.chunks buf) _ (λ out. refl))
]

tcp_server-IsBalanced : (buf : List ℕ) (os : ServerOs) → IsBalanced (tcp_server buf os)
unfolding tcp_server
tcp_server-IsBalanced buf os = elim (Option-cases os.socket) [
  | inl e ↦ rw e refl
  | inr (sfd, e) ↦ rw e (
      if-IsBalanced os.setsockopt _ _
        (if-IsBalanced os.bind _ _
          (if-IsBalanced os.listen _ (gives_up sfd) (serve_one-IsBalanced sfd buf os) refl) refl)
        refl)
]

-- Whatever call fails, and at the end of the input, the client and the server return with every
-- descriptor closed that they opened, each once, in the reverse order.
pub tcp-IsBalanced :
    (fuel : ℕ) (client : ClientOs) (server : ServerOs) (buf : List ℕ)
    → IsBalanced (tcp_client fuel client) × IsBalanced (tcp_server buf server)
tcp-IsBalanced fuel client server buf =
    (tcp_client-IsBalanced fuel client, tcp_server-IsBalanced buf server)
