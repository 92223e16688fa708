-- ===== src/Net/Examples/Links.antt =====
-- The client and the server with acknowledgements on a network, step by step.
use osh.Prelude.{
  Bool, ◌⊎◌, ◌↔◌, ◌+◌, ◌*◌, ℕ, some, arith, ◌≡◌, ◌≤◌, refl, List, [], ◌∷◌, ◌++◌, true, length,
  replicate, All,
}
use mathlib.Core.List.{Mem, map}
use osh.Net.CString.Padded.{overwritten-text, c_string-text}
use osh.Net.Line.{newline, finished}
use osh.Net.Stdio.{fgets, take_line}
use osh.Net.Tcp.Transfer.{joined}
use osh.Net.Ack.{ack_client, ack_server, DataFrame, frame}
use osh.Net.Ack.Network.{
  returned, Link, opening, filled, ack_of, fetches, ends, answers, receives, serves, arrives, Moves,
  Move, stay, further, fetched,
}
use osh.Net.Ack.Network.Server.{served}
use osh.Net.Ack.Network.Success.{Moves-success}
use osh.Net.Ack.Network.Stale.{lost_line}
use osh.Net.Ack.Network.Progress.{is_client, client_steps, Moves-ends}
use osh.Net.Ack.Network.Client.{sent}
use osh.Net.Ack.Network.Chosen.{ack_client-Moves}
use osh.Net.Examples.{hi_line, hi_line-IsText, same}

abbrev hi_frame : DataFrame
hi_frame = frame same same 1 hi_line

abbrev array : List ℕ
array = replicate 256 1

-- one line, printed and acknowledged
abbrev delivered : Link
delivered = record {
  input = [];
  seqno = 1;
  phase = returned true;
  inbox = [];
  frames = [];
  payload = filled hi_frame array;
  printed = hi_line ∷ [];
  acks = [];
}

abbrev delivery : Moves same same (opening hi_line array) delivered
unfolding fgets take_line
delivery =
    further _ _
      (further _ _
        (further _ _
          (further _ _
            (further _ _
              (further _ _ stay
                (fetches _ hi_line [] hi_line refl refl (c_string-text hi_line [] hi_line-IsText)))
              (serves _ [] [] hi_frame hi_line refl
                (overwritten-text array hi_line hi_line-IsText)))
            (arrives _ [] [] (ack_of same same hi_frame) refl))
          (answers _ 9 hi_frame (ack_of same same hi_frame) [] refl refl))
        (receives _ (ack_of same same hi_frame) [] refl refl))
      (ends _ refl refl)

Moves-success_example :
    (joined (fetched same same delivery) ≡ hi_line)
    × (length (fetched same same delivery) ≤ length delivered.printed)
    × All (λ text. Mem text (fetched same same delivery)) delivered.printed
    × (ack_server same same true true (served same same delivery) array
        ≡ finished (hi_line ∷ [], map (ack_of same same) (served same same delivery)))
Moves-success_example = Moves-success same same hi_line array delivered delivery hi_line-IsText refl

-- "ho"
abbrev ho_line : List ℕ
ho_line = 104 ∷ 111 ∷ newline ∷ []

two_lines : fgets 256 (hi_line ++ ho_line) ≡ some (hi_line, ho_line)
unfolding fgets take_line
two_lines = refl

one_line : fgets 256 ho_line ≡ some (ho_line, [])
unfolding fgets take_line
one_line = refl

lost_line_example :
    (q : Link) × (run : Moves same same (opening (hi_line ++ ho_line) array) q) × (q.phase
      ≡ returned true)
    × (fetched same same run ≡ hi_line ∷ ho_line ∷ [])
    × (q.printed ≡ hi_line ∷ hi_line ∷ [])
    × (q.frames ≡ [])
    × (q.acks ≡ [])
    × (q.inbox ≡ [])
lost_line_example =
    lost_line same same hi_line ho_line array hi_line-IsText
      (omega arith, (omega arith, (omega arith, tt))) two_lines one_line

Moves-ends_example :
    (client_steps same same delivery ≤ 13 * 3 + 1)
    × (((status : Bool) × (delivered.phase ≡ returned status))
        ⊎ ((r : Link) × (move : Move same same delivered r) × (is_client same same move ≡ true)))
Moves-ends_example = Moves-ends same same hi_line array delivered delivery hi_line-IsText

ack_client-Moves_example :
    ((ready : ℕ → ℕ → Bool) × (ack_client same same 4 true true ready hi_line
        ≡ finished (hi_frame ∷ [], true)))
    ↔ ((q : Link) × (run : Moves same same (opening hi_line array) q) × (q.phase ≡ returned true)
        × (sent same same run ≡ hi_frame ∷ []))
ack_client-Moves_example =
    ack_client-Moves same same 4 hi_line array (hi_frame ∷ []) true hi_line-IsText (omega arith)
      (omega arith)
