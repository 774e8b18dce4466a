-- ===== src/Tests/Streams.antt =====
-- The log server's packets at a concrete stream.
use event_loop.LogServer.{service, pong, begins, on_data, ns_recv, tcp_events}
use event_loop.LogServer.Packets.{answered, tcp_events-split}
use event_loop.LogServer.Split.{split_packets, nulls}
use event_loop.Prelude.{
  ◌==◌, concat, ℕ, ◌≡◌, refl, Bool, true, false, some, List, [], ◌∷◌, map, arith,
}

-- The last byte is 0.
abbrev ends_in_null : List ℕ → Bool
ends_in_null [] = false
ends_in_null (b ∷ []) = b == 0
ends_in_null (b ∷ c ∷ bs) = ends_in_null (c ∷ bs)

-- PING in two pieces, and a letter in the third that is not complete.
tcp_events-split_example :
    let pieces : List (List ℕ) =
      (80 ∷ 73 ∷ []) ∷ (78 ∷ 71 ∷ 0 ∷ 123 ∷ []) ∷ (125 ∷ 0 ∷ 97 ∷ []) ∷ [] in
    tcp_events nulls ends_in_null (map ns_recv pieces) (some [])
    ≡ some (
      answered ends_in_null (split_packets (concat pieces)).0,
      some (split_packets (concat pieces)).1,
    )
tcp_events-split_example =
    tcp_events-split ends_in_null (λ xs. refl)
      ((80 ∷ 73 ∷ []) ∷ (78 ∷ 71 ∷ 0 ∷ 123 ∷ []) ∷ (125 ∷ 0 ∷ 97 ∷ []) ∷ []) [] refl
      (omega arith, (λ e. refl), (omega arith, (λ e. cc), (omega arith, (λ e. cc), tt)))

-- The ping is answered, then the service for the braces.
ping_answered :
    answered ends_in_null (split_packets (80 ∷ 73 ∷ 78 ∷ 71 ∷ 0 ∷ 123 ∷ 125 ∷ 0 ∷ 97 ∷ [])).0
    ≡ pong ∷ service (123 ∷ 125 ∷ 0 ∷ []) true ∷ []
unfolding on_data begins
ping_answered = refl
