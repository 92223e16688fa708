-- ===== src/Net/Ack/Network/Stale.antt =====
-- The client takes any acknowledgement for the one of its frame.
use osh.Prelude.{ℕ, ◌≡◌, refl, List, [], ◌∷◌, ◌++◌, true, some}
use osh.Net.CString.Padded.{overwritten-text, IsText, c_string-text}
use osh.Net.Stdio.{fgets}
use osh.Net.Ack.{payload_size, DataFrame, frame}
use osh.Net.Ack.Network.{
  selecting, returned, Link, opening, filled, ack_of, fetches, ends, times_out, answers, receives,
  serves, arrives, loses_frame, Moves, stay, further, fetched,
}

module _ (htons htonl : ℕ → ℕ) (l1 l2 payload : List ℕ) where
  abbrev msg1 : DataFrame
  msg1 = frame htons htonl 1 l1

  abbrev msg2 : DataFrame
  msg2 = frame htons htonl 2 l2

  -- The first line is sent, and again after a time-out; both frames are printed and acknowledged.
  abbrev twice : Link
  twice = record {
    input = l2;
    seqno = 1;
    phase = selecting 9 msg1;
    inbox = ack_of htons htonl msg1 ∷ ack_of htons htonl msg1 ∷ [];
    frames = [];
    payload = filled msg1 (filled msg1 payload);
    printed = l1 ∷ l1 ∷ [];
    acks = [];
  }

  to_twice :
      IsText l1
      → fgets payload_size (l1 ++ l2) ≡ some (l1, l2)
      → (run : Moves htons htonl (opening (l1 ++ l2) payload) twice) × (fetched htons htonl run
          ≡ l1 ∷ [])
  to_twice h1 f1 = (
    further _ _
        (further _ _
          (further _ _
            (further _ _
              (further _ _ (further _ _ stay (fetches _ l1 l2 l1 refl f1 (c_string-text l1 [] h1)))
                (times_out _ 9 msg1 refl refl))
              (serves _ [] _ msg1 l1 refl (overwritten-text payload l1 h1)))
            (serves _ [] _ msg1 l1 refl (overwritten-text (filled msg1 payload) l1 h1)))
          (arrives _ [] _ (ack_of htons htonl msg1) refl))
        (arrives _ [] _ (ack_of htons htonl msg1) refl),
    refl,
  )

  -- the second line is lost
  abbrev lost : Link
  lost = record twice { input = []; seqno = 2; phase = returned true; inbox = [] }

  -- On any input of two lines without NULs, the network may lose the only frame of the second line
  -- and the client still returns with success: the server has printed the first line twice and the
  -- second one not at all, and nothing is under way any more.
  pub lost_line :
      IsText l1
      → IsText l2
      → fgets payload_size (l1 ++ l2) ≡ some (l1, l2)
      → fgets payload_size l2 ≡ some (l2, [])
      → (q : Link) × (run : Moves htons htonl (opening (l1 ++ l2) payload) q) × (q.phase
          ≡ returned true)
        × (fetched htons htonl run ≡ l1 ∷ l2 ∷ [])
        × (q.printed ≡ l1 ∷ l1 ∷ [])
        × (q.frames ≡ [])
        × (q.acks ≡ [])
        × (q.inbox ≡ [])
  unfolding fgets
  lost_line h1 h2 f1 f2 =
      let (run, lines) = to_twice h1 f1 in
      (
        lost,
        further _ _
            (further _ _
              (further _ _
                (further _ _
                  (further _ _
                    (further _ _ (further _ _ run (answers _ 8 msg1 _ _ refl refl))
                      (receives _ _ _ refl refl))
                    (fetches _ l2 [] l2 refl f2 (c_string-text l2 [] h2)))
                  (loses_frame _ [] [] msg2 refl))
                (answers _ 9 msg2 _ _ refl refl))
              (receives _ _ _ refl refl))
            (ends _ refl refl),
        refl,
        rw lines refl,
        refl,
        refl,
        refl,
        refl,
      )
