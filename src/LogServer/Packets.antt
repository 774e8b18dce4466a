-- ===== src/LogServer/Packets.antt =====
-- The packets of etc/ns_log_server.c, arriving in pieces.
use event_loop.LogServer.{
  tcp_buf_size, Reply, on_data, find_null, Left, remaining, ns_recv, packets, receive,
  tcp_ev_handler, tcp_events,
}
use event_loop.LogServer.Split.{
  split_packets, nulls, split-open, split-packet, find_null-cases, split-left, split-left_open,
  split-append, nulls-append,
}
use event_loop.Prelude.{
  leb, ◌==◌, if◌then◌else◌, Bool-cases, ltb-ge, ==-gt, length, take, drop, length-append,
  take-append_one, drop-append_one, concat, ℕ, zero, suc, ◌≤◌, ◌<◌, ◌≡◌, refl, sym, ap, ◌∙◌, inl,
  inr, Bool, true, false, Option, some, List, [], ◌∷◌, ◌++◌, map, append-nil, append_assoc, arith,
}

module _ (is_terminated : List ℕ → Bool) where
  -- The replies to packets: those that are not taken for a request are left out.
  abbrev pub answered : List (List ℕ) → List Reply
  answered [] = []
  answered (p ∷ ps) = if is_terminated p then on_data true p ∷ answered ps else answered ps

  answered-append : (ps qs : List (List ℕ)) → answered (ps ++ qs) ≡ answered ps ++ answered qs
  answered-append [] qs = refl
  answered-append (p ∷ ps) qs = elim (Bool-cases (is_terminated p)) [
    | inl e ↦ rw e (ap (λ rs. on_data true p ∷ rs) (answered-append ps qs))
    | inr e ↦ rw e (answered-append ps qs)
  ]

  -- The replies to packets, and what is left.
  abbrev answers : List (List ℕ) × List ℕ → Option (List Reply × Left)
  answers s = some (answered s.0, remaining s.1)

module _ (count : List ℕ → ℕ) (is_terminated : List ℕ → Bool) where
  -- A round that takes the packet up to the next byte 0.
  packets-next :
      (n : ℕ) (input buf before after : List ℕ) (replies : List Reply) (left : Left)
      → find_null input ≡ some (length before)
      → input ≡ before ++ 0 ∷ after
      → length (buf ++ input) ≤ tcp_buf_size
      → (if length after == 0
          then some ([], remaining [])
          else packets count is_terminated n after [])
        ≡ some (replies, left)
      → packets count is_terminated (suc n) input buf
        ≡ some (
          if is_terminated ((buf ++ before) ++ 0 ∷ [])
              then on_data true ((buf ++ before) ++ 0 ∷ []) ∷ replies
              else replies,
          left,
        )
  unfolding packets
  packets-next n input buf before after replies left f g fits next =
      let taken : buf ++ take (suc (length before)) input ≡ (buf ++ before) ++ 0 ∷ [] =
        ap (λ xs. buf ++ take (suc (length before)) xs) g
        ∙ ap (λ xs. buf ++ xs) (take-append_one before after 0)
        ∙ sym (append_assoc buf before (0 ∷ [])) in
      let dropped : drop (suc (length before)) input ≡ after =
        ap (drop (suc (length before))) g ∙ drop-append_one before after 0 in
      let len : length ((buf ++ before) ++ 0 ∷ []) ≤ tcp_buf_size = omega (
        arith,
        fits,
        ap length g,
        length-append buf input,
        length-append (buf ++ before) (0 ∷ []),
        length-append buf before,
        length-append before (0 ∷ after),
      ) in
      rw
        (
          packets,
          f,
          taken,
          dropped,
          ltb-ge tcp_buf_size (length ((buf ++ before) ++ 0 ∷ [])) len,
          next,
          taken,
        )
        refl

  module _ (counted : (xs : List ℕ) → count xs ≡ nulls xs) where
    -- What is left is taken, where there are packets in it.
    rest_lem :
        (n : ℕ) (after : List ℕ)
        → n ≡ nulls after
        → (0 < n
            → packets count is_terminated n after [] ≡ answers is_terminated (split_packets after))
        → (if length after == 0
            then some ([], remaining [])
            else packets count is_terminated n after [])
          ≡ answers is_terminated (split_packets after)
    unfolding packets
    rest_lem n [] e taken = refl
    rest_lem zero (b ∷ bs) e taken =
        rw (==-gt (length (b ∷ bs)) 0 (omega arith))
          (ap (answers is_terminated) (sym (split-open (b ∷ bs) (sym e))))
    rest_lem (suc n) (b ∷ bs) e taken =
        rw (==-gt (length (b ∷ bs)) 0 (omega arith)) (taken (omega arith))

    -- The loop takes all packets.
    packets_lem :
        (n : ℕ) (input buf : List ℕ)
        → n ≡ nulls input
        → 0 < n
        → nulls buf ≡ 0
        → length (buf ++ input) ≤ tcp_buf_size
        → packets count is_terminated n input buf
          ≡ answers is_terminated (split_packets (buf ++ input))
    unfolding packets
    packets_lem zero input buf e pos_n open_buf fits = absurd (omega arith)
    packets_lem (suc n) input buf e pos_n open_buf fits = elim (find_null-cases input) [
      | inl (f, k) ↦ absurd (omega (arith, e, k))
      | inr (i, before, after, f, g, l, k) ↦
          let open_text : nulls (buf ++ before) ≡ 0 =
            omega (arith, nulls-append buf before, open_buf, k) in
          let whole : buf ++ input ≡ (buf ++ before) ++ 0 ∷ after =
            ap (λ xs. buf ++ xs) g ∙ sym (append_assoc buf before (0 ∷ after)) in
          packets-next n input buf before after (answered is_terminated (split_packets after).0)
            (remaining (split_packets after).1) (f ∙ ap some (sym l)) g fits
            (rest_lem n after (omega (arith, e, k, ap nulls g, nulls-append before (0 ∷ after)))
              (λ more.
                packets_lem n after []
                  (omega (arith, e, k, ap nulls g, nulls-append before (0 ∷ after))) more refl
                  (omega (
                    arith,
                    fits,
                    ap length g,
                    length-append buf input,
                    length-append before (0 ∷ after),
                  ))))
          ∙ ap (answers is_terminated)
              (sym (ap split_packets whole ∙ split-packet (buf ++ before) after open_text))
    ]

    -- NS_RECV with an open buffer.
    receive_lem :
        (buf input : List ℕ)
        → nulls buf ≡ 0
        → length (buf ++ input) ≤ tcp_buf_size
        → (nulls input ≡ 0 → is_terminated (buf ++ input) ≡ false)
        → receive count is_terminated buf input
          ≡ some (
            answered is_terminated (split_packets (buf ++ input)).0,
            (split_packets (buf ++ input)).1,
          )
    unfolding receive
    receive_lem buf input open_buf fits open_waits = elim (Bool-cases (leb 1 (count input))) [
      | inl some_packets ↦
          let fits' = split-left (buf ++ input) in
          rw
            (
              receive,
              some_packets,
              packets_lem (count input) input buf (counted input) (ground arith) open_buf fits,
              ltb-ge tcp_buf_size (length (split_packets (buf ++ input)).1)
                  (omega (arith, fits, fits')),
            )
            refl
      | inr none_complete ↦
          let open_all : nulls (buf ++ input) ≡ 0 =
            ground (arith, counted input, nulls-append buf input) in
          rw
            (
              receive,
              none_complete,
              ltb-ge tcp_buf_size (length (buf ++ input)) fits,
              open_waits (ground (arith, counted input)),
            )
            (ap (λ (s : List (List ℕ) × List ℕ). some (answered is_terminated s.0, s.1))
              (sym (split-open (buf ++ input) open_all)))
    ]

-- The replies to packets, and the connection with its buffer.
abbrev served :
    (is_terminated : List ℕ → Bool) → List (List ℕ) × List ℕ → Option (List Reply × Option (List ℕ))
served is_terminated s = some (answered is_terminated s.0, some s.1)

-- The pieces fit into the buffer behind what is left of the ones before, and a piece without a byte 0 does
-- not complete a request by itself: isTerminatedRequestStr does not take what is then in the buffer.
abbrev pub AllWait : (is_terminated : List ℕ → Bool) → (buf : List ℕ) → List (List ℕ) → Type 0
AllWait is_terminated buf [] = Unit
AllWait is_terminated buf (c ∷ cs) =
    (length (buf ++ c) ≤ tcp_buf_size)
    × (nulls c ≡ 0 → is_terminated (buf ++ c) ≡ false)
    × AllWait is_terminated (split_packets (buf ++ c)).1 cs

-- However a stream is cut into the pieces that arrive, and whatever is in the buffer before, without a
-- byte 0: of the packets between the bytes 0 of the whole, each with its byte 0, those that
-- isTerminatedRequestStr takes are answered, in their order, the others are dropped, and the buffer has
-- what follows the last. This holds where countNullCharOnStream counts the bytes 0, each piece fits into
-- the buffer behind what was left, and behind a piece without a byte 0 isTerminatedRequestStr does not
-- take what is in the buffer.
pub tcp_events-split :
    {count : List ℕ → ℕ} (is_terminated : List ℕ → Bool)
    (counted : (xs : List ℕ) → count xs ≡ nulls xs) (pieces : List (List ℕ)) (buf : List ℕ)
    → nulls buf ≡ 0
    → AllWait is_terminated buf pieces
    → tcp_events count is_terminated (map ns_recv pieces) (some buf)
      ≡ some (
        answered is_terminated (split_packets (buf ++ concat pieces)).0,
        some (split_packets (buf ++ concat pieces)).1,
      )
unfolding tcp_events tcp_ev_handler
tcp_events-split {count} is_terminated counted [] buf open_buf fit =
    ap (served is_terminated) (sym (ap split_packets (append-nil buf) ∙ split-open buf open_buf))
tcp_events-split {count} is_terminated counted (c ∷ cs) buf open_buf (now, open_waits, later) =
    let s = split_packets (buf ++ c) in
    let rest = tcp_events-split is_terminated counted cs s.1 (split-left_open (buf ++ c)) later in
    rw
      (
        tcp_events,
        tcp_ev_handler,
        receive_lem count is_terminated counted buf c open_buf now open_waits,
        rest,
      )
      (ap (λ rs. some (rs, some (split_packets (s.1 ++ concat cs)).1))
          (sym (answered-append is_terminated s.0 (split_packets (s.1 ++ concat cs)).0))
        ∙ ap (served is_terminated) (
            sym (
              ap split_packets (sym (append_assoc buf c (concat cs)))
              ∙ split-append (buf ++ c) (concat cs))))
